-- ===== src/Plugin/Node.antt =====
-- The plugin in a running node: the signals that the node sends to the handler of
-- sql_db_plugin/sql_db_plugin.cpp, the threads of consumer.hpp, and the database that their consume
-- calls write.
pub mod Accepted
pub mod Threads
pub mod Signals
pub mod Order
pub mod Statements
pub mod Records
pub mod Tables
pub mod Served
pub mod Configured
pub mod Working
pub mod Settling
use eos_sql_db_plugin.Base.{ℕ, Bool, true, false, not, Option, none, some, List, [], ◌∷◌, ◌++◌, ◌≡◌}
use eos_sql_db_plugin.Sql.{Driver}
use eos_sql_db_plugin.Chain.{TransactionTrace, BlockState, ChainLib}
use eos_sql_db_plugin.Database.{SqlDatabase, consume_block_state, consume_transaction_trace}
use eos_sql_db_plugin.Consumer.Channel.{Producer, idle, Move}
use eos_sql_db_plugin.Consumer.System.{Consumer, Event, on_blocks, on_traces, close, initial, step}
use eos_sql_db_plugin.Consumer.Batch.{after_all}
use eos_sql_db_plugin.Consumer.Flow.{consumes, is_call}
use eos_sql_db_plugin.Plugin.{on_applied_transaction}

-- `signals` is for the proofs: the traces that the node has signalled, oldest first.
pub record Node (Db : Type 0) : Type 0 where
  pub consumer : Consumer BlockState TransactionTrace
  pub db : Db
  pub signals : List TransactionTrace

module _ {Db : Type 0} where
  abbrev pub started : Db → Node Db
  started db = record { consumer = initial; db = db; signals = [] }

  abbrev pub with_consumer :
      Node Db → Db → Option (Consumer BlockState TransactionTrace) → Option (Node Db)
  with_consumer n db none = none
  with_consumer n db (some s) = some (record n { consumer = s; db = db })

  abbrev pub and_then : (Node Db → Option (Node Db)) → Option (Node Db) → Option (Node Db)
  and_then k none = none
  and_then k (some n) = k n

-- A step of a thread that calls nothing.
abbrev pub is_internal : {B T : Type 0} → Event B T → Bool
is_internal (on_blocks picks m) = not (is_call m)
is_internal (on_traces picks m) = not (is_call m)
is_internal close = true

module _ (d : Driver) (c : ChainLib) (self : SqlDatabase) (queue_size : ℕ) where
  -- What the consume call of a step does to the database; what it throws is caught.
  abbrev pub after_event :
      Event BlockState TransactionTrace → Consumer BlockState TransactionTrace → d.Db → d.Db
  after_event (on_blocks picks m) s db =
      after_all (consume_block_state d c self) db (consumes m s.blocks)
  after_event (on_traces picks m) s db =
      after_all (consume_transaction_trace d c self) db (consumes m s.traces)
  after_event close s db = db

  unfoldable pub thread_step : Event BlockState TransactionTrace → Node d.Db → Option (Node d.Db)
  thread_step e n = with_consumer n (after_event e n.consumer n.db) (step queue_size e n.consumer)

  unfoldable pub make_calls : List (Move TransactionTrace) → Node d.Db → Option (Node d.Db)
  make_calls [] n = some n
  make_calls (m ∷ ms) n = and_then (make_calls ms) (thread_step (on_traces true m) n)

  -- The thread of the node runs the lambda only when no call of the last signal is under way.
  unfoldable pub signal_at :
      (block_num_start : ℕ)
      → TransactionTrace
      → Node d.Db
      → Producer TransactionTrace
      → Option (Node d.Db)
  signal_at block_num_start tc n idle =
      make_calls (on_applied_transaction block_num_start tc)
        (record n { signals = n.signals ++ tc ∷ [] })
  signal_at block_num_start tc n _ = none

  -- What any order of signals and steps of the threads leads to.
  pub data Run (block_num_start : ℕ) (n : Node d.Db) : Node d.Db → Type 0 where
    begin : Run block_num_start n n
    thread :
        {m o : Node d.Db} (e : Event BlockState TransactionTrace)
        → is_internal e ≡ true
        → Run block_num_start n m
        → thread_step e m ≡ some o
        → Run block_num_start n o
    signalled :
        {m o : Node d.Db} (tc : TransactionTrace)
        → Run block_num_start n m
        → signal_at block_num_start tc m m.consumer.traces.producer ≡ some o
        → Run block_num_start n o
