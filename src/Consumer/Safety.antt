-- ===== src/Consumer/Safety.antt =====
-- The entries of the consumer (sql_db_plugin/consumer.hpp), its mutexes and its notifications under
-- every schedule of its threads.
use eos_sql_db_plugin.Base.{ℕ, refl, Bool, true, false, not, arith}
use eos_sql_db_plugin.Consumer.Channel.{
  Channel, Signal, silent, notify_one, notify_all, start, deliver,
}
use eos_sql_db_plugin.Consumer.Invariant.{Inv, move-Inv, wake-Inv}
use eos_sql_db_plugin.Consumer.System.{Consumer, initial, Reach, here, next}
use eos_sql_db_plugin.Consumer.Runs.{
  Took, blocks_moved, traces_moved, exit_raised, exit_notified, blocks_joined, step-Took,
}

module _ {E : Type 0} where
  deliver-Inv :
      (signal : Signal) (chosen : Bool) (ch : Channel E) → Inv ch → Inv (deliver signal chosen ch)
  deliver-Inv silent chosen ch v = v
  deliver-Inv notify_one true ch v = wake-Inv ch ch.worker refl v
  deliver-Inv notify_one false ch v = v
  deliver-Inv notify_all chosen ch v = wake-Inv ch ch.worker refl v

  start-Inv : Inv (start {E = E})
  start-Inv = ground arith

module _ {B T : Type 0} where
  pub record IsSafe (s : Consumer B T) : Type 0 where
    pub blocks : Inv s.blocks
    pub traces : Inv s.traces

module _ {B T : Type 0} (queue_size : ℕ) where
  Took-IsSafe : (s t : Consumer B T) → IsSafe s → Took queue_size s t → IsSafe t
  Took-IsSafe s t v (blocks_moved picks m ch signal p e) = rw e (record {
    blocks = move-Inv s.exit picks queue_size m s.blocks ch signal v.blocks p;
    traces = deliver-Inv signal (not picks) s.traces v.traces;
  })
  Took-IsSafe s t v (traces_moved picks m ch signal p e) = rw e (record {
    blocks = deliver-Inv signal picks s.blocks v.blocks;
    traces = move-Inv s.exit (not picks) queue_size m s.traces ch signal v.traces p;
  })
  Took-IsSafe s t v (exit_raised e) = rw e (record { blocks = v.blocks; traces = v.traces })
  Took-IsSafe s t v (exit_notified e) = rw e (record {
    blocks = deliver-Inv notify_all true s.blocks v.blocks;
    traces = deliver-Inv notify_all true s.traces v.traces;
  })
  Took-IsSafe s t v (blocks_joined w e) = rw e (record { blocks = v.blocks; traces = v.traces })

  -- In every state that the threads can reach from the start, for each queue: the entries pushed are
  -- those consumed, those of the batch and those queued, in this order; at most one thread holds the
  -- mutex; and a worker sleeps over a queue that is not empty only while a notification is due.
  pub Reach-IsSafe : {s : Consumer B T} → Reach queue_size initial s → IsSafe s
  Reach-IsSafe here = record { blocks = start-Inv; traces = start-Inv }
  Reach-IsSafe (next {t = t} {u = u} e r h) =
      Took-IsSafe t u (Reach-IsSafe r) (step-Took queue_size t u e h)
