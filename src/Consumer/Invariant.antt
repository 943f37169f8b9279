-- ===== src/Consumer/Invariant.antt =====
-- One queue of the consumer under every interleaving of its producer and its worker.
use mathlib.Core.List.{append_assoc, append-nil}
use eos_sql_db_plugin.Base.{
  ℕ, ◌≡◌, refl, Bool, true, false, ◌&&◌, ◌⊎◌, some, List, [], ◌∷◌, ◌++◌, arith,
}
use eos_sql_db_plugin.Consumer.Channel.{
  Worker, head, locking, testing, before_wait, asleep, woken, draining, drained, ended, Producer,
  idle, entering, measuring, backing_off, timing, sleeping, reentering, appending, appended,
  Channel, Signal, silent, worker_holds, producer_holds, take_all, drain_one, work_at, produce_at,
  call_at, wake, deliver, Move, work, produce, spurious, call, move,
}

abbrev pub is_draining : Worker → Bool
is_draining draining = true
is_draining _ = false

abbrev pub is_before_wait : Worker → Bool
is_before_wait before_wait = true
is_before_wait _ = false

abbrev pub is_asleep : Worker → Bool
is_asleep asleep = true
is_asleep _ = false

module _ {E : Type 0} where
  pub record Inv (ch : Channel E) : Type 0 where
    -- Each entry is in one place, in the order of the pushes.
    pub flow : ch.pushed ≡ ch.consumed ++ (ch.process_queue ++ ch.queue)
    -- At most one thread holds the mutex.
    pub exclusive : worker_holds ch.worker && producer_holds ch.producer ≡ false
    -- Between two batches nothing is left of the last.
    pub batch : is_draining ch.worker ≡ false → ch.process_queue ≡ []
    -- Nothing is pushed between a worker's test and its wait.
    pub settled : is_before_wait ch.worker ≡ true → ch.queue ≡ []
    -- A worker that sleeps has nothing to take, or its notification is on the way.
    pub heard : is_asleep ch.worker ≡ true → (ch.queue ≡ []) ⊎ (ch.producer ≡ appended)

  drain_one-Inv :
      (ch : Channel E) (l : List E)
      → ch.worker ≡ draining
      → ch.process_queue ≡ l
      → Inv ch
      → Inv (drain_one ch l).0
  unfolding drain_one
  drain_one-Inv ch [] e p v = ground arith
  drain_one-Inv ch (x ∷ rest) e p v =
      ground (arith, append_assoc ch.consumed (x ∷ []) (rest ++ ch.queue))

  silent-drain_one : (ch : Channel E) (l : List E) → (drain_one ch l).1 ≡ silent
  unfolding drain_one
  silent-drain_one ch [] = refl
  silent-drain_one ch (x ∷ rest) = refl

  work_at-Inv :
      (exit chosen : Bool) (ch : Channel E) (w : Worker) (next : Channel E) (signal : Signal)
      → ch.worker ≡ w
      → Inv ch
      → work_at exit ch w ≡ some (next, signal)
      → Inv (deliver signal chosen next)
  unfolding work_at take_all
  work_at-Inv exit chosen ch head next signal e v h = ground arith
  work_at-Inv exit chosen ch locking next signal e v h = ground arith
  work_at-Inv exit chosen ch testing next signal e v h = ground (arith, append-nil ch.queue)
  work_at-Inv exit chosen ch before_wait next signal e v h = ground arith
  work_at-Inv exit chosen ch asleep next signal e v h = ground arith
  work_at-Inv exit chosen ch woken next signal e v h = ground arith
  work_at-Inv exit chosen ch draining next signal e v h =
      ground
        (arith, drain_one-Inv ch ch.process_queue e refl v, silent-drain_one ch ch.process_queue)
  work_at-Inv exit chosen ch drained next signal e v h = ground arith
  work_at-Inv exit chosen ch ended next signal e v h = ground arith

  produce_at-Inv :
      (queue_size : ℕ) (chosen : Bool) (ch : Channel E) (p : Producer E) (next : Channel E)
      (signal : Signal)
      → ch.producer ≡ p
      → Inv ch
      → produce_at queue_size ch p ≡ some (next, signal)
      → Inv (deliver signal chosen next)
  unfolding produce_at
  produce_at-Inv queue_size chosen ch idle next signal e v h = ground arith
  produce_at-Inv queue_size chosen ch (entering x) next signal e v h = ground arith
  produce_at-Inv queue_size chosen ch (measuring x) next signal e v h = ground arith
  produce_at-Inv queue_size chosen ch (backing_off x) next signal e v h = ground arith
  produce_at-Inv queue_size chosen ch (timing x) next signal e v h = ground arith
  produce_at-Inv queue_size chosen ch (sleeping x t) next signal e v h = ground arith
  produce_at-Inv queue_size chosen ch (reentering x) next signal e v h = ground arith
  produce_at-Inv queue_size chosen ch (appending x) next signal e v h = ground (
    arith,
    append_assoc ch.process_queue ch.queue (x ∷ []),
    append_assoc ch.consumed (ch.process_queue ++ ch.queue) (x ∷ []),
  )
  produce_at-Inv queue_size chosen ch appended next signal e v h = ground arith

  pub wake-Inv : (ch : Channel E) (w : Worker) → ch.worker ≡ w → Inv ch → Inv (wake ch w)
  wake-Inv ch asleep e v = ground arith
  wake-Inv ch _ e v = v

  call_at-Inv :
      (x : E) (chosen : Bool) (ch : Channel E) (p : Producer E) (next : Channel E) (signal : Signal)
      → ch.producer ≡ p
      → Inv ch
      → call_at x ch p ≡ some (next, signal)
      → Inv (deliver signal chosen next)
  unfolding call_at
  call_at-Inv x chosen ch idle next signal e v h = ground arith
  call_at-Inv x chosen ch _ next signal e v h = cc

  -- Every move of the worker or the producer, with the signal that it sends, keeps the invariant.
  pub move-Inv :
      (exit chosen : Bool) (queue_size : ℕ) (m : Move E) (ch next : Channel E) (signal : Signal)
      → Inv ch
      → move exit queue_size m ch ≡ some (next, signal)
      → Inv (deliver signal chosen next)
  unfolding move
  move-Inv exit chosen queue_size work ch next signal v h =
      work_at-Inv exit chosen ch ch.worker next signal refl v h
  move-Inv exit chosen queue_size produce ch next signal v h =
      produce_at-Inv queue_size chosen ch ch.producer next signal refl v h
  move-Inv exit chosen queue_size spurious ch next signal v h =
      ground (arith, wake-Inv ch ch.worker refl v)
  move-Inv exit chosen queue_size (call x) ch next signal v h =
      call_at-Inv x chosen ch ch.producer next signal refl v h
