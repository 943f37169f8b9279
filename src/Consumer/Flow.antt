-- ===== src/Consumer/Flow.antt =====
-- What a move at a queue of the consumer (sql_db_plugin/consumer.hpp) takes in and hands on.
use mathlib.Core.List.{append-nil}
use eos_sql_db_plugin.Base.{
  ℕ, ◌≡◌, refl, ap, ◌∙◌, Bool, true, false, some, List, [], ◌∷◌, ◌++◌, arith,
}
use eos_sql_db_plugin.Consumer.Channel.{
  Worker, head, locking, testing, before_wait, asleep, woken, draining, drained, ended, Producer,
  idle, entering, measuring, backing_off, timing, sleeping, reentering, appending, appended,
  Channel, Signal, silent, notify_one, notify_all, take_all, drain_one, work_at, produce_at, wake,
  deliver, Move, work, produce, spurious, call, move,
}

module _ {E : Type 0} where
  -- The entry of a call of `queue` under way that is not in the queue yet.
  abbrev pub in_flight : Producer E → List E
  in_flight idle = []
  in_flight (entering e) = e ∷ []
  in_flight (measuring e) = e ∷ []
  in_flight (backing_off e) = e ∷ []
  in_flight (timing e) = e ∷ []
  in_flight (sleeping e sleep_time) = e ∷ []
  in_flight (reentering e) = e ∷ []
  in_flight (appending e) = e ∷ []
  in_flight appended = []

  -- `process_queue.front()`, where the worker is about to make the consume call.
  abbrev pub front : Worker → List E → List E
  front draining (e ∷ rest) = e ∷ []
  front _ _ = []

  -- The entry that a move gives to the consume call, if it makes one.
  abbrev pub consumes : Move E → Channel E → List E
  consumes work ch = front ch.worker ch.process_queue
  consumes _ ch = []

  abbrev pub is_call : Move E → Bool
  is_call (call e) = true
  is_call _ = false

  -- What a step of the two threads does to the entries.
  pub record Flows (m : Move E) (ch next : Channel E) : Type 0 where
    pub kept : next.pushed ++ in_flight next.producer ≡ ch.pushed ++ in_flight ch.producer
    pub handed : next.consumed ≡ ch.consumed ++ consumes m ch

  drain_one-Flows :
      (ch : Channel E) (l : List E)
      → ch.worker ≡ draining
      → ch.process_queue ≡ l
      → Flows work ch (drain_one ch l).0
  unfolding drain_one
  drain_one-Flows ch [] w p = ground (arith, append-nil ch.consumed)
  drain_one-Flows ch (e ∷ rest) w p = ground arith

  work_at-Flows :
      (exit : Bool) (ch next : Channel E) (w : Worker) (signal : Signal)
      → ch.worker ≡ w
      → work_at exit ch w ≡ some (next, signal)
      → Flows work ch next
  unfolding work_at take_all
  work_at-Flows exit ch next head signal e h = ground (arith, append-nil ch.consumed)
  work_at-Flows exit ch next locking signal e h = ground (arith, append-nil ch.consumed)
  work_at-Flows exit ch next testing signal e h = ground (arith, append-nil ch.consumed)
  work_at-Flows exit ch next before_wait signal e h = ground (arith, append-nil ch.consumed)
  work_at-Flows exit ch next asleep signal e h = cc
  work_at-Flows exit ch next woken signal e h = ground (arith, append-nil ch.consumed)
  work_at-Flows exit ch next draining signal e h =
      ground (arith, drain_one-Flows ch ch.process_queue e refl)
  work_at-Flows exit ch next drained signal e h = ground (arith, append-nil ch.consumed)
  work_at-Flows exit ch next ended signal e h = cc

  produce_at-Flows :
      (queue_size : ℕ) (ch next : Channel E) (p : Producer E) (signal : Signal)
      → ch.producer ≡ p
      → produce_at queue_size ch p ≡ some (next, signal)
      → Flows produce ch next
  unfolding produce_at
  produce_at-Flows queue_size ch next (appending x) signal e h =
      ground (arith, append-nil ch.consumed, append-nil (ch.pushed ++ x ∷ []))
  produce_at-Flows queue_size ch next p signal e h = ground (arith, append-nil ch.consumed)

  wake-Flows : (ch : Channel E) (w : Worker) → ch.worker ≡ w → Flows spurious ch (wake ch w)
  wake-Flows ch asleep e = ground (arith, append-nil ch.consumed)
  wake-Flows ch w e = ground (arith, append-nil ch.consumed)

  -- No step but a call takes an entry in, and a step hands on the entry that it gives to the consume
  -- call.
  pub move-Flows :
      (exit : Bool) (queue_size : ℕ) (m : Move E) (ch next : Channel E) (signal : Signal)
      → is_call m ≡ false
      → move exit queue_size m ch ≡ some (next, signal)
      → Flows m ch next
  unfolding move
  move-Flows exit queue_size work ch next signal c h =
      work_at-Flows exit ch next ch.worker signal refl h
  move-Flows exit queue_size produce ch next signal c h =
      produce_at-Flows queue_size ch next ch.producer signal refl h
  move-Flows exit queue_size spurious ch next signal c h =
      ground (arith, wake-Flows ch ch.worker refl)
  move-Flows exit queue_size (call x) ch next signal c h = cc

  -- A notification reaches no entry.
  record Same (ch next : Channel E) : Type 0 where
    pub pushed : next.pushed ≡ ch.pushed
    pub producer : next.producer ≡ ch.producer
    pub consumed : next.consumed ≡ ch.consumed

  wake-Same : (ch : Channel E) (w : Worker) → Same ch (wake ch w)
  wake-Same ch asleep = record { pushed = refl; producer = refl; consumed = refl }
  wake-Same ch w = ground arith

  deliver-Same :
      (signal : Signal) (chosen : Bool) (ch : Channel E) → Same ch (deliver signal chosen ch)
  deliver-Same silent chosen ch = record { pushed = refl; producer = refl; consumed = refl }
  deliver-Same notify_one true ch = wake-Same ch ch.worker
  deliver-Same notify_one false ch = record { pushed = refl; producer = refl; consumed = refl }
  deliver-Same notify_all chosen ch = wake-Same ch ch.worker

  -- The entries that calls of `queue` have brought.
  abbrev pub taken_in : (ch : Channel E) → List E
  taken_in ch = ch.pushed ++ in_flight ch.producer

  pub deliver_kept :
      (signal : Signal) (chosen : Bool) (ch : Channel E)
      → taken_in (deliver signal chosen ch) ≡ taken_in ch
  deliver_kept signal chosen ch =
      let s = deliver-Same signal chosen ch in
      ap (λ p. p ++ in_flight (deliver signal chosen ch).producer) s.pushed
      ∙ ap (λ (p : Producer E). ch.pushed ++ in_flight p) s.producer

  pub deliver_consumed :
      (signal : Signal) (chosen : Bool) (ch : Channel E)
      → (deliver signal chosen ch).consumed ≡ ch.consumed
  deliver_consumed signal chosen ch = (deliver-Same signal chosen ch).consumed
