-- ===== src/Tests/Queueing.antt =====
-- The theorems on the consumer at concrete schedules.
use eos_sql_db_plugin.Base.{
  ℕ, suc, ◌+◌, ◌≡◌, refl, true, false, some, List, [], ◌∷◌, ◌++◌, length, if◌then◌else◌, ◌==◌, none,
}
use eos_sql_db_plugin.Effect.{unknown, ok, throws, Effect}
use eos_sql_db_plugin.Consumer.Channel.{
  ended, testing, draining, drained, asleep, Channel, start, Move, work, produce, call, take_all,
  drain_one, work_at, produce_at, call_at, move,
}
use eos_sql_db_plugin.Consumer.System.{
  Consumer, Event, on_traces, raised, initial, Reach, here, step, run,
}
use eos_sql_db_plugin.Consumer.Runs.{Reach-run}
use eos_sql_db_plugin.Consumer.Safety.{IsSafe, Reach-IsSafe}
use eos_sql_db_plugin.Consumer.Shutdown.{
  IsStuck, OwnEvent, own, shutdown_deadlock, exit_drops_queue,
}
use eos_sql_db_plugin.Consumer.Progress.{
  work_steps, run_moves, batch_consumed, exit_ends, queue_unbounded,
}

-- Trace 7 is pushed and then taken by the worker, which has begun to consume it.
abbrev one_trace : List (Event ℕ ℕ)
one_trace =
    on_traces true (call 7)
    ∷ on_traces true produce
    ∷ on_traces true produce
    ∷ on_traces true produce
    ∷ on_traces false produce
    ∷ on_traces true work
    ∷ on_traces true work
    ∷ on_traces true work
    ∷ on_traces true work
    ∷ []

abbrev consumed_one : Consumer ℕ ℕ
consumed_one = record initial {
  traces = record start { worker = draining; pushed = 7 ∷ []; consumed = 7 ∷ [] };
}

run-one_trace : run 10 one_trace initial ≡ some consumed_one
unfolding run step move work_at produce_at call_at take_all drain_one
run-one_trace = refl

Reach-IsSafe_example : IsSafe consumed_one
Reach-IsSafe_example =
    Reach-IsSafe 10 (Reach-run 10 one_trace initial consumed_one here run-one_trace)

shutdown_deadlock_example :
    (s : Consumer ℕ ℕ) × Reach 10 initial s
    × IsStuck s
    × ((e : OwnEvent) → step 10 (own e) s ≡ none)
shutdown_deadlock_example = shutdown_deadlock 10

-- The worker of the traces stands at the head of its outer loop, with traces 1 and 2 queued, and `exit`
-- is set.
abbrev leaving : Consumer ℕ ℕ
leaving = record initial {
  traces = record start { queue = 1 ∷ 2 ∷ []; pushed = 1 ∷ 2 ∷ [] };
  exit = true;
  closer = raised;
}

abbrev left : Consumer ℕ ℕ
left = record initial {
  traces = record start { queue = 1 ∷ 2 ∷ []; worker = ended; pushed = 1 ∷ 2 ∷ [] };
  exit = true;
  closer = raised;
}

run-left : run 10 (on_traces true work ∷ []) leaving ≡ some left
unfolding run step move work_at
run-left = refl

exit_drops_queue_example : left.traces.consumed ≡ leaving.traces.consumed
exit_drops_queue_example =
    exit_drops_queue 10 (on_traces true work ∷ []) leaving left refl refl run-left

abbrev two_queued : Channel ℕ
two_queued = record start { queue = 1 ∷ 2 ∷ []; worker = testing; pushed = 1 ∷ 2 ∷ [] }

batch_consumed_example :
    work_steps false (suc (suc (length two_queued.queue))) two_queued
    ≡ some (record two_queued {
      worker = drained;
      process_queue = [];
      queue = [];
      consumed = two_queued.consumed ++ two_queued.queue;
    })
batch_consumed_example = batch_consumed false two_queued 1 (2 ∷ []) refl refl

-- The worker sleeps, and the queue is longer than the queue size.
abbrev sleeper : Channel ℕ
sleeper = record start { queue = 1 ∷ 2 ∷ []; worker = asleep; pushed = 1 ∷ 2 ∷ [] }

abbrev busy : Channel ℕ
busy = record start { worker = draining; process_queue = 1 ∷ []; pushed = 1 ∷ [] }

queue_unbounded_example :
    (ms : List (Move ℕ)) × (run_moves false 1 ms busy
      ≡ some (record busy {
        queue = busy.queue ++ 2 ∷ 3 ∷ 4 ∷ [];
        pushed = busy.pushed ++ 2 ∷ 3 ∷ 4 ∷ [];
      }))
queue_unbounded_example = queue_unbounded false 1 (2 ∷ 3 ∷ 4 ∷ []) busy refl refl

-- Stores the entry, and then throws where it is 2.
abbrev store : ℕ → Effect (List ℕ) (Unit {0})
store e s = (if e == 2 then throws unknown else ok tt, e ∷ s)

exit_ends_example :
    work_steps true (suc (suc (length two_queued.queue)) + 2) two_queued
    ≡ some (record two_queued {
      worker = ended;
      process_queue = [];
      queue = [];
      consumed = two_queued.consumed ++ two_queued.queue;
    })
exit_ends_example = exit_ends two_queued refl refl
