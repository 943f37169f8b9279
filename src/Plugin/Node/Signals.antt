-- ===== src/Plugin/Node/Signals.antt =====
-- That a signal keeps the invariant of a running node.
use mathlib.Core.List.{append-nil}
use eos_sql_db_plugin.Base.{
  ℕ, ◌≡◌, sym, ap, ◌∙◌, subst, inl, inr, true, some, some-injective, [], ◌∷◌, ◌++◌,
}
use eos_sql_db_plugin.Sql.{Driver}
use eos_sql_db_plugin.Chain.{TransactionTrace, ChainLib}
use eos_sql_db_plugin.Database.{SqlDatabase}
use eos_sql_db_plugin.Consumer.Channel.{Producer, idle, entering, call, call_at, move}
use eos_sql_db_plugin.Consumer.System.{on_traces, step, after_traces, next}
use eos_sql_db_plugin.Consumer.Batch.{after_all}
use eos_sql_db_plugin.Plugin.Node.{
  Node, and_then, with_consumer, thread_step, make_calls, signal_at,
}
use eos_sql_db_plugin.Plugin.Node.Accepted.{accepted, accepted-append, on_applied_transaction-cases}
use eos_sql_db_plugin.Plugin.Node.Threads.{Holds, pushed_all}

module _ (d : Driver) (c : ChainLib) (self : SqlDatabase) (queue_size start : ℕ) (db : d.Db) where
  abbrev heard : TransactionTrace → Node d.Db → Node d.Db
  heard tc n = record n { signals = n.signals ++ tc ∷ [] }

  refused-Holds :
      (tc : TransactionTrace) (n : Node d.Db)
      → accepted start (tc ∷ []) ≡ []
      → Holds d c self queue_size start db n
      → Holds d c self queue_size start db (heard tc n)
  refused-Holds tc n none_more v = record {
    reached = v.reached;
    quiet = v.quiet;
    brought =
        v.brought
        ∙ sym (append-nil (accepted start n.signals))
        ∙ ap (λ l. accepted start n.signals ++ l) (sym none_more)
        ∙ sym (accepted-append start n.signals (tc ∷ []));
    written = v.written;
  }

  -- A call that begins.
  abbrev entered : TransactionTrace → Node d.Db → Node d.Db
  entered tc n = record (heard tc n) {
    consumer = record n.consumer { traces = record n.consumer.traces { producer = entering tc } };
  }

  step-call :
      (tc : TransactionTrace) (n : Node d.Db)
      → n.consumer.traces.producer ≡ idle
      → step queue_size (on_traces true (call tc)) n.consumer ≡ some (entered tc n).consumer
  unfolding step move call_at
  step-call tc n q = ap (λ p. after_traces n.consumer true (call_at tc n.consumer.traces p)) q

  entered-Holds :
      (tc : TransactionTrace) (n : Node d.Db)
      → n.consumer.traces.producer ≡ idle
      → accepted start (tc ∷ []) ≡ tc ∷ []
      → Holds d c self queue_size start db n
      → Holds d c self queue_size start db (entered tc n)
  entered-Holds tc n q one_more v =
      let before = pushed_all d c self queue_size start db n v q in
      record {
        reached = next (on_traces true (call tc)) v.reached (step-call tc n q);
        quiet = v.quiet;
        brought =
            ap (λ l. l ++ tc ∷ []) before
            ∙ ap (λ l. accepted start n.signals ++ l) (sym one_more)
            ∙ sym (accepted-append start n.signals (tc ∷ []));
        written = v.written;
      }

  make_calls-call :
      (tc : TransactionTrace) (n : Node d.Db)
      → n.consumer.traces.producer ≡ idle
      → make_calls d c self queue_size (call tc ∷ []) (heard tc n) ≡ some (entered tc n)
  unfolding make_calls thread_step after_all
  make_calls-call tc n q =
      ap (λ r. and_then (make_calls d c self queue_size []) (with_consumer (heard tc n) n.db r))
        (step-call tc n q)

  -- A signal whose transaction is accepted brings it; one whose transaction is not brings nothing.
  pub signal_at-Holds :
      (tc : TransactionTrace) (n o : Node d.Db) (p : Producer TransactionTrace)
      → n.consumer.traces.producer ≡ p
      → Holds d c self queue_size start db n
      → signal_at d c self queue_size start tc n p ≡ some o
      → Holds d c self queue_size start db o
  unfolding signal_at
  signal_at-Holds tc n o idle q v h = elim (on_applied_transaction-cases start tc) [
    | inl (no_call, none_more) ↦
        let same : some (heard tc n) ≡ some o =
          unfold make_calls in
          (ap (λ ms. make_calls d c self queue_size ms (heard tc n)) (sym no_call) ∙ h) in
        subst (Holds d c self queue_size start db) (some-injective _ _ same)
          (refused-Holds tc n none_more v)
    | inr (one_call, one_more) ↦
        let same : some (entered tc n) ≡ some o =
          sym (make_calls-call tc n q)
          ∙ ap (λ ms. make_calls d c self queue_size ms (heard tc n)) (sym one_call)
          ∙ h in
        subst (Holds d c self queue_size start db) (some-injective _ _ same)
          (entered-Holds tc n q one_more v)
  ]
  signal_at-Holds tc n o p q v h = cc
