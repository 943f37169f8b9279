-- ===== src/Consumer/Shutdown.antt =====
-- What `shutdown` and the destructor of the consumer leave behind.
use eos_sql_db_plugin.Base.{
  ℕ, ◌≡◌, refl, ◌∙◌, Bool, true, false, not, subst, none, some, some-injective, List, [], ◌∷◌, ◌++◌,
  arith,
}
use eos_sql_db_plugin.Consumer.Channel.{
  Worker, head, ended, asleep, Producer, idle, Channel, Signal, silent, notify_one, notify_all,
  Move, work, produce, spurious, call, move, work_at, produce_at, call_at, deliver, wake, start,
}
use eos_sql_db_plugin.Consumer.System.{
  Consumer, Event, on_blocks, on_traces, close, joining, initial, step, run, Reach, here,
}
use eos_sql_db_plugin.Consumer.Runs.{
  Took, blocks_moved, traces_moved, exit_raised, exit_notified, blocks_joined, step-Took, run-cons,
  Reach-run,
}

-- The events but a new push and a wait that ends by itself.
pub data OwnEvent : Type 0 where
  blocks_work blocks_produce traces_work traces_produce : (picks_blocks : Bool) → OwnEvent
  closing : OwnEvent

abbrev pub own : {B T : Type 0} → OwnEvent → Event B T
own (blocks_work picks) = on_blocks picks work
own (blocks_produce picks) = on_blocks picks produce
own (traces_work picks) = on_traces picks work
own (traces_produce picks) = on_traces picks produce
own closing = close

-- The worker is past its last batch, or is about to see that it is.
abbrev pub is_over : Worker → Bool
is_over head = true
is_over ended = true
is_over _ = false

module _ {E : Type 0} where
  wake-over :
      (ch : Channel E) (w : Worker)
      → ch.worker ≡ w
      → is_over w ≡ true
      → (is_over (wake ch w).worker ≡ true) × ((wake ch w).consumed ≡ ch.consumed)
  wake-over ch asleep e h = cc
  wake-over ch _ e h = ground arith

  deliver-over :
      (signal : Signal) (chosen : Bool) (ch : Channel E)
      → is_over ch.worker ≡ true
      → (is_over (deliver signal chosen ch).worker ≡ true)
        × ((deliver signal chosen ch).consumed ≡ ch.consumed)
  deliver-over silent chosen ch h = (h, refl)
  deliver-over notify_one true ch h = wake-over ch ch.worker refl h
  deliver-over notify_one false ch h = (h, refl)
  deliver-over notify_all chosen ch h = wake-over ch ch.worker refl h

  abbrev StaysOver : Channel E → Channel E → Type 0
  StaysOver ch after = (is_over after.worker ≡ true) × (after.consumed ≡ ch.consumed)

  work_at-over :
      (ch : Channel E) (w : Worker) (after : Channel E) (signal : Signal)
      → is_over w ≡ true
      → work_at true ch w ≡ some (after, signal)
      → StaysOver ch after
  unfolding work_at
  work_at-over ch head after signal o h = ground arith
  work_at-over ch ended after signal o h = cc
  work_at-over ch _ after signal o h = cc

  produce_at-over :
      (queue_size : ℕ) (ch : Channel E) (p : Producer E) (after : Channel E) (signal : Signal)
      → is_over ch.worker ≡ true
      → produce_at queue_size ch p ≡ some (after, signal)
      → StaysOver ch after
  unfolding produce_at
  produce_at-over queue_size ch idle after signal o h = cc
  produce_at-over queue_size ch _ after signal o h = ground arith

  call_at-over :
      (x : E) (ch : Channel E) (p : Producer E) (after : Channel E) (signal : Signal)
      → is_over ch.worker ≡ true
      → call_at x ch p ≡ some (after, signal)
      → StaysOver ch after
  unfolding call_at
  call_at-over x ch idle after signal o h = ground arith
  call_at-over x ch _ after signal o h = cc

  move-over :
      (queue_size : ℕ) (m : Move E) (ch after : Channel E) (signal : Signal)
      → is_over ch.worker ≡ true
      → move true queue_size m ch ≡ some (after, signal)
      → StaysOver ch after
  unfolding move
  move-over queue_size work ch after signal o h = work_at-over ch ch.worker after signal o h
  move-over queue_size produce ch after signal o h =
      produce_at-over queue_size ch ch.producer after signal o h
  move-over queue_size spurious ch after signal o h = ground (arith, wake-over ch ch.worker refl o)
  move-over queue_size (call x) ch after signal o h = call_at-over x ch ch.producer after signal o h

module _ {B T : Type 0} where
  -- Both workers sleep, nobody pushes, and the closing thread waits in join().
  pub record IsStuck (s : Consumer B T) : Type 0 where
    pub exiting : s.exit ≡ true
    pub blocks_asleep : s.blocks.worker ≡ asleep
    pub traces_asleep : s.traces.worker ≡ asleep
    pub blocks_idle : s.blocks.producer ≡ idle
    pub traces_idle : s.traces.producer ≡ idle
    pub in_join : s.closer ≡ joining

  stuck_step :
      (queue_size : ℕ) (e : OwnEvent) (s : Consumer B T)
      → IsStuck s
      → step queue_size (own e) s ≡ none
  unfolding step move
  stuck_step queue_size (blocks_work picks) s v = ground arith
  stuck_step queue_size (blocks_produce picks) s v = ground arith
  stuck_step queue_size (traces_work picks) s v = ground arith
  stuck_step queue_size (traces_produce picks) s v = ground arith
  stuck_step queue_size closing s v = ground arith

  -- `exit` is set and notified while both workers stand between their test and their wait.
  abbrev pub missed_close : List (Event B T)
  missed_close = close ∷ close ∷ on_blocks true work ∷ on_traces true work ∷ []

  abbrev pub to_wait : List (Event B T)
  to_wait =
      on_blocks true work
      ∷ on_blocks true work
      ∷ on_blocks true work
      ∷ on_traces true work
      ∷ on_traces true work
      ∷ on_traces true work
      ∷ []

  abbrev stuck : Consumer B T
  stuck = record {
    blocks = record (start {E = B}) { worker = asleep };
    traces = record (start {E = T}) { worker = asleep };
    exit = true;
    closer = joining;
  }

  run_to_stuck : (queue_size : ℕ) → run queue_size (to_wait ++ missed_close) initial ≡ some stuck
  unfolding run step move
  run_to_stuck queue_size = refl

  -- For every queue size a schedule leads from the start to a state where `shutdown` waits in join()
  -- for a worker that sleeps, and where no thread can take a step: unless an entry is pushed or a
  -- wait ends by itself, `shutdown` never returns.
  pub shutdown_deadlock :
      (queue_size : ℕ)
      → (s : Consumer B T) × Reach queue_size initial s
        × IsStuck s
        × ((e : OwnEvent) → step queue_size (own e) s ≡ none)
  shutdown_deadlock queue_size =
      let v : IsStuck stuck = record {
        exiting = refl;
        blocks_asleep = refl;
        traces_asleep = refl;
        blocks_idle = refl;
        traces_idle = refl;
        in_join = refl;
      } in
      (
        stuck,
        Reach-run queue_size (to_wait ++ missed_close) initial stuck here (run_to_stuck queue_size),
        v,
        λ e. stuck_step queue_size e stuck v,
      )

  record IsOver (c : List T) (s : Consumer B T) : Type 0 where
    exiting : s.exit ≡ true
    over : is_over s.traces.worker ≡ true
    kept : s.traces.consumed ≡ c

  Took-IsOver :
      (queue_size : ℕ) (c : List T) (s t : Consumer B T)
      → IsOver c s
      → Took queue_size s t
      → IsOver c t
  Took-IsOver queue_size c s t v (blocks_moved picks m ch signal p e) =
      let d = deliver-over signal (not picks) s.traces v.over in
      rw e (record { exiting = v.exiting; over = d.0; kept = d.1 ∙ v.kept })
  Took-IsOver queue_size c s t v (traces_moved picks m ch signal p e) =
      let o = move-over queue_size m s.traces ch signal v.over (rw (← v.exiting) p) in
      let d = deliver-over signal (not picks) ch o.0 in
      rw e (record { exiting = v.exiting; over = d.0; kept = d.1 ∙ o.1 ∙ v.kept })
  Took-IsOver queue_size c s t v (exit_raised e) = ground arith
  Took-IsOver queue_size c s t v (exit_notified e) =
      let d = wake-over s.traces s.traces.worker refl v.over in
      rw e (record { exiting = v.exiting; over = d.0; kept = d.1 ∙ v.kept })
  Took-IsOver queue_size c s t v (blocks_joined w e) = ground arith

  run-IsOver :
      (queue_size : ℕ) (c : List T) (es : List (Event B T)) (s u : Consumer B T)
      → IsOver c s
      → run queue_size es s ≡ some u
      → IsOver c u
  run-IsOver queue_size c [] s u v h =
      unfold run in subst (λ x. IsOver c x) (some-injective _ _ h) v
  run-IsOver queue_size c (e ∷ es) s u v h =
      let (t, p, q) = run-cons queue_size e es s u h in
      run-IsOver queue_size c es t u (Took-IsOver queue_size c s t v (step-Took queue_size s t e p))
        q

  -- Once `exit` is set while the worker of the traces stands at the head of its outer loop, before it
  -- takes the mutex, or has ended, it consumes nothing more, whatever the schedule: the traces that
  -- are queued then are dropped.
  pub exit_drops_queue :
      (queue_size : ℕ) (es : List (Event B T)) (s u : Consumer B T)
      → s.exit ≡ true
      → is_over s.traces.worker ≡ true
      → run queue_size es s ≡ some u
      → u.traces.consumed ≡ s.traces.consumed
  exit_drops_queue queue_size es s u x o h =
      (run-IsOver queue_size s.traces.consumed es s u
        (record { exiting = x; over = o; kept = refl }) h).kept
