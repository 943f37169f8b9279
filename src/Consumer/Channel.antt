-- ===== src/Consumer/Channel.antt =====
-- One queue of the consumer (sql_db_plugin/consumer.hpp): the producer in `queue`, and the worker in
-- `run_blocks` or `run_traces`, which are the same code over another queue. An atomic step is what a
-- thread does between two accesses that another thread can see.
use eos_sql_db_plugin.Base.{
  ℕ, ◌+◌, ◌-◌, Bool, true, false, not, Option, none, some, List, [], ◌∷◌, ◌++◌, ◌&&◌, is_empty,
  length, ltb, if◌then◌else◌,
}

-- Where the worker stands.
pub data Worker : Type 0 where
  head : Worker  -- `while (!exit)`
  locking : Worker  -- before `scoped_lock lock(mtx)`
  testing : Worker  -- holds the mutex, before `queue.empty() && !exit`
  before_wait : Worker  -- holds the mutex, the test was true
  asleep : Worker  -- in `condition.wait(lock)`, which has released the mutex
  woken : Worker  -- notified, before `wait` has the mutex back
  draining : Worker  -- before `!process_queue.empty()`
  drained : Worker  -- before `condition.notify_all()`
  ended : Worker

-- Where the producer stands, with the entry that it pushes.
pub data Producer (E : Type 0) : Type 0 where
  idle : Producer E
  entering : E → Producer E  -- before `scoped_lock lock(mtx)`
  measuring : E → Producer E  -- holds the mutex, before `queue.size() > queue_size`
  backing_off : E → Producer E  -- has unlocked, before `condition.notify_one()`
  timing : E → Producer E  -- before `last_queue_size < queue.size()`
  sleeping : E → (sleep_time : ℕ) → Producer E  -- in `sleep_for`
  reentering : E → Producer E  -- before `lock.lock()`
  appending : E → Producer E  -- holds the mutex, before `queue.emplace_back(e)`
  appended : Producer E  -- has unlocked, before `condition.notify_all()`

-- `pushed` and `consumed` are for the proofs: the entries given to emplace_back, and those given to
-- the consume call of the database, oldest first.
pub record Channel (E : Type 0) : Type 0 where
  pub queue : List E
  pub process_queue : List E
  pub worker : Worker
  pub producer : Producer E
  pub pushed : List E
  pub consumed : List E

-- What a step does to the condition variable.
pub data Signal : Type 0 where
  silent notify_one notify_all : Signal

abbrev pub worker_holds : Worker → Bool
worker_holds testing = true
worker_holds before_wait = true
worker_holds _ = false

abbrev pub producer_holds : {E : Type 0} → Producer E → Bool
producer_holds (measuring e) = true
producer_holds (appending e) = true
producer_holds _ = false

-- `sleep_time` after the test on `last_queue_size`, which is 0 then.
abbrev pub sleep_time_for : (size : ℕ) → ℕ
sleep_time_for size = if ltb 0 size then 100 + 100 else if ltb (100 - 100) 0 then 100 else 100 - 100

-- What may happen at one queue. A wait may end with no notification.
pub data Move (E : Type 0) : Type 0 where
  work produce spurious : Move E
  call : E → Move E

module _ {E : Type 0} where
  abbrev pub start : Channel E
  start = record {
    queue = [];
    process_queue = [];
    worker = head;
    producer = idle;
    pushed = [];
    consumed = [];
  }

  -- The test of the inner `while` failed: the move, if the size is not 0, and `lock.unlock()`.
  unfoldable pub take_all : Channel E → Channel E
  take_all ch =
      if is_empty ch.queue
      then record ch { worker = draining }
      else record ch { worker = draining; process_queue = ch.queue; queue = [] }

  -- One round of the loop over `process_queue`: the consume call, which may throw, and `pop_front`.
  unfoldable pub drain_one : Channel E → List E → Channel E × Signal
  drain_one ch [] = (record ch { worker = drained }, silent)
  drain_one ch (e ∷ rest) =
      (record ch { process_queue = rest; consumed = ch.consumed ++ e ∷ [] }, silent)

  -- One step of the worker; `none` where it is blocked.
  unfoldable pub work_at : (exit : Bool) → Channel E → Worker → Option (Channel E × Signal)
  unfolding take_all drain_one
  work_at exit ch head = some (record ch { worker = if exit then ended else locking }, silent)
  work_at exit ch locking =
      if producer_holds ch.producer then none else some (record ch { worker = testing }, silent)
  work_at exit ch testing =
      if is_empty ch.queue && not exit
      then some (record ch { worker = before_wait }, silent)
      else some (take_all ch, silent)
  work_at exit ch before_wait = some (record ch { worker = asleep }, silent)
  work_at exit ch asleep = none
  work_at exit ch woken =
      if producer_holds ch.producer then none else some (record ch { worker = testing }, silent)
  work_at exit ch draining = some (drain_one ch ch.process_queue)
  work_at exit ch drained = some (record ch { worker = head }, notify_all)
  work_at exit ch ended = none

  -- One step of the producer inside `queue`.
  unfoldable pub produce_at :
      (queue_size : ℕ) → Channel E → Producer E → Option (Channel E × Signal)
  produce_at queue_size ch idle = none
  produce_at queue_size ch (entering e) =
      if worker_holds ch.worker then none else some (record ch { producer = measuring e }, silent)
  produce_at queue_size ch (measuring e) = some (
    record ch {
      producer = if ltb queue_size (length ch.queue) then backing_off e else appending e;
    },
    silent,
  )
  produce_at queue_size ch (backing_off e) = some (record ch { producer = timing e }, notify_one)
  produce_at queue_size ch (timing e) =
      some (record ch { producer = sleeping e (sleep_time_for (length ch.queue)) }, silent)
  produce_at queue_size ch (sleeping e sleep_time) =
      some (record ch { producer = reentering e }, silent)
  produce_at queue_size ch (reentering e) =
      if worker_holds ch.worker then none else some (record ch { producer = appending e }, silent)
  produce_at queue_size ch (appending e) = some (
    record ch { queue = ch.queue ++ e ∷ []; pushed = ch.pushed ++ e ∷ []; producer = appended },
    silent,
  )
  produce_at queue_size ch appended = some (record ch { producer = idle }, notify_all)

  -- A call of `queue` by the one thread that pushes.
  unfoldable pub call_at : E → Channel E → Producer E → Option (Channel E × Signal)
  call_at e ch idle = some (record ch { producer = entering e }, silent)
  call_at e ch _ = none

  abbrev pub wake : Channel E → Worker → Channel E
  wake ch asleep = record ch { worker = woken }
  wake ch _ = ch

  -- What a signal does to this queue's worker; `chosen` says whether notify_one picks it.
  abbrev pub deliver : Signal → (chosen : Bool) → Channel E → Channel E
  deliver silent chosen ch = ch
  deliver notify_one chosen ch = if chosen then wake ch ch.worker else ch
  deliver notify_all chosen ch = wake ch ch.worker

  unfoldable pub move :
      (exit : Bool) → (queue_size : ℕ) → Move E → Channel E → Option (Channel E × Signal)
  unfolding work_at produce_at call_at
  move exit queue_size work ch = work_at exit ch ch.worker
  move exit queue_size produce ch = produce_at queue_size ch ch.producer
  move exit queue_size spurious ch = some (wake ch ch.worker, silent)
  move exit queue_size (call e) ch = call_at e ch ch.producer
