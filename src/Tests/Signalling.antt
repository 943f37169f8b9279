-- ===== src/Tests/Signalling.antt =====
-- The theorems on the plugin in a running node, at a concrete order of signals and steps.
use eos_sql_db_plugin.Base.{
  ℕ, zero, suc, ◌≡◌, refl, ap, true, false, not, Option, none, some, some-injective, subst, List,
  [], ◌∷◌, ◌++◌,
}
use eos_sql_db_plugin.Chain.{TransactionTrace}
use eos_sql_db_plugin.Consumer.Channel.{
  entering, start, work, produce, Move, work_at, produce_at, take_all, drain_one, call_at, move,
}
use eos_sql_db_plugin.Consumer.System.{on_traces, initial, step}
use eos_sql_db_plugin.Consumer.Batch.{after_all}
use eos_sql_db_plugin.Consumer.Flow.{is_call}
use eos_sql_db_plugin.Database.{consume_transaction_trace}
use eos_sql_db_plugin.Plugin.{on_applied_transaction}
use eos_sql_db_plugin.Plugin.Node.{
  Node, started, and_then, thread_step, make_calls, signal_at, Run, begin, thread, signalled,
}
use eos_sql_db_plugin.Plugin.Node.Accepted.{accepted}
use eos_sql_db_plugin.Plugin.Node.Working.{ByWorker}
use eos_sql_db_plugin.Plugin.Node.Order.{Run-consumed, Run-at_rest, Run-settles}
use eos_sql_db_plugin.Tests.Resting.{self, tc, at_rest}
use eos_sql_db_plugin.Tests.Worlds.{logging, counting, counting_laws, plain}
use eos_sql_db_plugin.Plugin.Node.Records.{Run-leased}
use eos_sql_db_plugin.Sql.{Driver}

module _ (d : Driver) (db : d.Db) where
  abbrev pub DbNode : Type 0
  DbNode = Node d.Db

  abbrev pub Runs : DbNode → DbNode → Type 0
  Runs = Run d plain self 5000 0

  -- Moves of the threads of the traces in a row.
  abbrev moves : List (Move TransactionTrace) → DbNode → Option DbNode
  moves = make_calls d plain self 5000

  moves_then :
      (m : Move TransactionTrace) (ms : List (Move TransactionTrace)) (o : DbNode)
      (r : Option DbNode)
      → and_then (moves ms) r ≡ some o
      → (n : DbNode) × (r ≡ some n) × (moves ms n ≡ some o)
  moves_then m ms o none h = cc
  moves_then m ms o (some n) h = (n, refl, h)

  module _ (m : Move TransactionTrace) (internal : is_call m ≡ false) where
    abbrev repeated : ℕ → List (Move TransactionTrace) → List (Move TransactionTrace)
    repeated zero ms = ms
    repeated (suc k) ms = m ∷ repeated k ms

    Run-repeated : (k : ℕ) (s n o : DbNode) → Runs s n → moves (repeated k []) n ≡ some o → Runs s o
    unfolding make_calls
    Run-repeated zero s n o r h = subst (λ x. Runs s x) (some-injective _ _ h) r
    Run-repeated (suc k) s n o r h =
        let (t, p, q) = moves_then m (repeated k []) o _ h in
        Run-repeated k s t o (thread (on_traces true m) (ap not internal) r p) q

  -- One trace is signalled.
  abbrev signalled_once : DbNode
  signalled_once = record (started db) {
    consumer = record initial { traces = record start { producer = entering tc } };
    signals = tc ∷ [];
  }

  -- Its call of `queue` has returned.
  abbrev queued : DbNode
  queued = record signalled_once {
    consumer = record initial { traces = record start { queue = tc ∷ []; pushed = tc ∷ [] } };
  }

  -- The worker has consumed it and sleeps.
  abbrev pub consumed : DbNode
  consumed = record signalled_once {
    consumer = at_rest;
    db = after_all (consume_transaction_trace d plain self) db (tc ∷ []);
  }

  Run-signalled_once : Runs (started db) signalled_once
  unfolding signal_at make_calls thread_step step move call_at on_applied_transaction after_all
  Run-signalled_once = signalled tc begin refl

  Run-queued : Runs (started db) queued
  unfolding make_calls thread_step step move produce_at after_all
  Run-queued =
      Run-repeated produce refl 4 (started db) signalled_once queued Run-signalled_once refl

  pub Run-consumed_all : Runs (started db) consumed
  unfolding make_calls thread_step step move work_at take_all drain_one after_all
  Run-consumed_all = Run-repeated work refl 10 (started db) queued consumed Run-queued refl

abbrev Logged : Type 0
Logged = Node logging.Db

Run-consumed_example :
    ([] ≡ after_all (consume_transaction_trace logging plain self) [] [])
    × (accepted 0 (tc ∷ []) ≡ [] ++ (([] ++ []) ++ tc ∷ []))
Run-consumed_example =
    Run-consumed logging plain self 5000 0 [] (signalled_once logging [])
      (Run-signalled_once logging [])

Run-at_rest_example :
    after_all (consume_transaction_trace logging plain self) [] (tc ∷ [])
    ≡ after_all (consume_transaction_trace logging plain self) [] (accepted 0 (tc ∷ []))
Run-at_rest_example =
    Run-at_rest logging plain self 5000 0 [] (consumed logging []) (Run-consumed_all logging [])
      refl refl

Run-settles_example :
    (last : Logged) × (ByWorker logging plain self 5000 (queued logging []) last)
    × (last.signals ≡ tc ∷ [])
    × (last.db ≡ after_all (consume_transaction_trace logging plain self) [] (accepted 0 (tc ∷ [])))
Run-settles_example =
    Run-settles logging plain self 5000 0 [] (queued logging []) (Run-queued logging []) refl refl

Run-leased_example : (consumed counting 2).db ≡ 2
Run-leased_example =
    Run-leased counting plain self 5000 0 2 (consumed counting 2) (Run-consumed_all counting 2)
      counting_laws
