-- ===== src/Consumer/System.antt =====
-- The whole consumer (sql_db_plugin/consumer.hpp): both queues, the flag `exit`, and the thread that
-- calls `shutdown` or the destructor, which do the same. A queue sees the notifications of the other
-- through the shared condition variable.
use eos_sql_db_plugin.Base.{ℕ, ◌≡◌, Bool, true, false, not, Option, none, some, List, [], ◌∷◌}
use eos_sql_db_plugin.Consumer.Channel.{
  Worker, ended, Channel, Signal, notify_all, start, deliver, Move, move,
}

-- Where the closing thread stands.
pub data Closer : Type 0 where
  serving : Closer  -- `shutdown` is not called yet
  raised : Closer  -- `exit` is set, before `condition.notify_all()`
  joining : Closer  -- in `consume_thread_run_blocks.join()`
  joined : Closer

pub record Consumer (B T : Type 0) : Type 0 where
  pub blocks : Channel B
  pub traces : Channel T
  pub exit : Bool
  pub closer : Closer

-- `picks_blocks` says whether a notify_one of this step picks the worker of the blocks.
pub data Event (B T : Type 0) : Type 0 where
  on_blocks : (picks_blocks : Bool) → Move B → Event B T
  on_traces : (picks_blocks : Bool) → Move T → Event B T
  close : Event B T

module _ {B T : Type 0} where
  abbrev pub initial : Consumer B T
  initial = record { blocks = start; traces = start; exit = false; closer = serving }

  abbrev pub after_blocks :
      Consumer B T → Bool → Option (Channel B × Signal) → Option (Consumer B T)
  after_blocks s picks none = none
  after_blocks s picks (some (ch, signal)) =
      some (record s {
        blocks = deliver signal picks ch;
        traces = deliver signal (not picks) s.traces;
      })

  abbrev pub after_traces :
      Consumer B T → Bool → Option (Channel T × Signal) → Option (Consumer B T)
  after_traces s picks none = none
  after_traces s picks (some (ch, signal)) =
      some (record s {
        blocks = deliver signal picks s.blocks;
        traces = deliver signal (not picks) ch;
      })

  -- join() returns when the worker of the blocks has ended.
  abbrev pub join : Consumer B T → Worker → Option (Consumer B T)
  join s ended = some (record s { closer = joined })
  join s _ = none

  unfoldable pub close_at : Consumer B T → Closer → Option (Consumer B T)
  close_at s serving = some (record s { exit = true; closer = raised })
  close_at s raised = some (record s {
    blocks = deliver notify_all true s.blocks;
    traces = deliver notify_all true s.traces;
    closer = joining;
  })
  close_at s joining = join s s.blocks.worker
  close_at s joined = none

  unfoldable pub step : (queue_size : ℕ) → Event B T → Consumer B T → Option (Consumer B T)
  unfolding close_at
  step queue_size (on_blocks picks m) s = after_blocks s picks (move s.exit queue_size m s.blocks)
  step queue_size (on_traces picks m) s = after_traces s picks (move s.exit queue_size m s.traces)
  step queue_size close s = close_at s s.closer

  abbrev pub run_from :
      (Consumer B T → Option (Consumer B T)) → Option (Consumer B T) → Option (Consumer B T)
  run_from k none = none
  run_from k (some s) = k s

  -- A schedule; `none` where one of its events is blocked.
  unfoldable pub run : (queue_size : ℕ) → List (Event B T) → Consumer B T → Option (Consumer B T)
  run queue_size [] s = some s
  run queue_size (e ∷ es) s = run_from (run queue_size es) (step queue_size e s)

  -- What some schedule leads to.
  pub data Reach (queue_size : ℕ) (s : Consumer B T) : Consumer B T → Type 0 where
    here : Reach queue_size s s
    next :
        {t u : Consumer B T} (e : Event B T)
        → Reach queue_size s t
        → step queue_size e t ≡ some u
        → Reach queue_size s u
