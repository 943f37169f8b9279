-- ===== src/Consumer/Progress.antt =====
-- How far the worker and the producer of a queue of the consumer (sql_db_plugin/consumer.hpp) get by
-- their own steps, and how long the queue may grow.
use mathlib.Core.List.{append_assoc, append-nil}
use eos_sql_db_plugin.Base.{
  ℕ, zero, suc, ◌≡◌, refl, ap, ◌∙◌, ◌+◌, ◌⊎◌, Bool, true, false, inl, inr, Bool-cases, Option, none,
  some, some-injective, List, [], ◌∷◌, ◌++◌, arith, ltb, length, if◌then◌else◌, if◌then◌else◌,
}
use eos_sql_db_plugin.Consumer.Channel.{
  ended, testing, draining, drained, idle, Channel, Signal, Move, produce, call, move, work_at,
  drain_one, deliver, wake, worker_holds,
}

module _ {E : Type 0} where
  abbrev worked :
      (Channel E → Option (Channel E)) → Option (Channel E × Signal) → Option (Channel E)
  worked k none = none
  worked k (some (ch, signal)) = k ch

  -- `n` steps of the worker, with nothing in between.
  pub work_steps : (exit : Bool) → ℕ → Channel E → Option (Channel E)
  work_steps exit zero ch = some ch
  work_steps exit (suc n) ch = worked (work_steps exit n) (work_at exit ch ch.worker)

  drain_steps :
      (exit : Bool) (ch : Channel E) (l : List E)
      → ch.worker ≡ draining
      → ch.process_queue ≡ l
      → work_steps exit (suc (length l)) ch
        ≡ some (record ch { worker = drained; process_queue = []; consumed = ch.consumed ++ l })
  unfolding work_steps work_at drain_one
  drain_steps exit ch [] w p = ground (arith, append-nil ch.consumed)
  drain_steps exit ch (x ∷ rest) w p = ground (
    arith,
    drain_steps exit (record ch { process_queue = rest; consumed = ch.consumed ++ x ∷ [] }) rest w
        refl,
    append_assoc ch.consumed (x ∷ []) rest,
  )

  take_steps :
      (exit : Bool) (ch : Channel E) (x : E) (l : List E)
      → ch.worker ≡ testing
      → ch.queue ≡ x ∷ l
      → work_steps exit (suc (suc (length ch.queue))) ch
        ≡ work_steps exit
            (suc (length ch.queue))
            (record ch { worker = draining; process_queue = ch.queue; queue = [] })
  unfolding work_steps work_at
  take_steps exit ch x l w q = ground arith

  -- A worker that tests a queue which is not empty consumes every entry of it, in the order of the
  -- queue, within two steps of its own more than there are entries, and leaves queue and batch
  -- empty, if nothing is pushed meanwhile.
  pub batch_consumed :
      (exit : Bool) (ch : Channel E) (x : E) (l : List E)
      → ch.worker ≡ testing
      → ch.queue ≡ x ∷ l
      → work_steps exit (suc (suc (length ch.queue))) ch
        ≡ some (record ch {
          worker = drained;
          process_queue = [];
          queue = [];
          consumed = ch.consumed ++ ch.queue;
        })
  batch_consumed exit ch x l w q =
      take_steps exit ch x l w q
      ∙ drain_steps exit (record ch { worker = draining; process_queue = ch.queue; queue = [] })
          ch.queue refl refl

  worked_then :
      (k k' : Channel E → Option (Channel E)) (mid : Channel E) (o : Option (Channel E))
      (r : Option (Channel E × Signal))
      → ((c : Channel E) → k c ≡ some mid → k' c ≡ o)
      → worked k r ≡ some mid
      → worked k' r ≡ o
  worked_then k k' mid o none ih h = cc
  worked_then k k' mid o (some (c, signal)) ih h = ih c h

  list_cases : (l : List E) → (l ≡ []) ⊎ ((x : E) × (r : List E) × (l ≡ x ∷ r))
  list_cases [] = inl refl
  list_cases (x ∷ r) = inr (x, r, refl)

  work_steps-add :
      (exit : Bool) (m n : ℕ) (ch mid : Channel E)
      → work_steps exit m ch ≡ some mid
      → work_steps exit (m + n) ch ≡ work_steps exit n mid
  unfolding work_steps
  work_steps-add exit zero n ch mid h =
      let e : 0 + n ≡ n = omega arith in rw e (ap (work_steps exit n) (some-injective _ _ h))
  work_steps-add exit (suc m) n ch mid h =
      let e : suc m + n ≡ suc (m + n) = omega arith in
      rw e (
        worked_then (work_steps exit m) (work_steps exit (m + n)) mid (work_steps exit n mid)
          (work_at exit ch ch.worker) (λ c g. work_steps-add exit m n c mid g) h)

  -- Once `exit` is set a worker that comes to its test with an empty batch has ended, and has
  -- consumed every entry of the queue, within four steps of its own more than there are entries, if
  -- nothing is pushed meanwhile.
  pub exit_ends :
      (ch : Channel E)
      → ch.worker ≡ testing
      → ch.process_queue ≡ []
      → work_steps true (suc (suc (length ch.queue)) + 2) ch
        ≡ some (record ch {
          worker = ended;
          process_queue = [];
          queue = [];
          consumed = ch.consumed ++ ch.queue;
        })
  unfolding work_steps work_at drain_one
  exit_ends ch w b = elim (list_cases ch.queue) [
    | inl empty ↦ ground (arith, append-nil ch.consumed)
    | inr (x, l, q) ↦
        work_steps-add true (suc (suc (length ch.queue))) 2 ch _ (batch_consumed true ch x l w q)
        ∙ refl
  ]

  abbrev moved : (Channel E → Option (Channel E)) → Option (Channel E × Signal) → Option (Channel E)
  moved k none = none
  moved k (some (ch, signal)) = k (deliver signal true ch)

  -- A schedule of one queue, where every notification reaches its worker.
  pub run_moves : (exit : Bool) (queue_size : ℕ) → List (Move E) → Channel E → Option (Channel E)
  run_moves exit queue_size [] ch = some ch
  run_moves exit queue_size (m ∷ ms) ch =
      moved (run_moves exit queue_size ms) (move exit queue_size m ch)

  abbrev pub short_push : E → List (Move E)
  short_push e = call e ∷ produce ∷ produce ∷ produce ∷ produce ∷ []

  abbrev pub long_push : E → List (Move E)
  long_push e =
      call e ∷ produce ∷ produce ∷ produce ∷ produce ∷ produce ∷ produce ∷ produce ∷ produce ∷ []

  -- The moves of a call of `queue`, with a detour where the queue is over `queue_size`.
  pub push : (queue_size : ℕ) → E → Channel E → List (Move E)
  push queue_size e ch = if ltb queue_size (length ch.queue) then long_push e else short_push e

  -- While the worker does not hold the mutex and takes no step a call of `queue` comes to its end
  -- in at most nine moves, with the entry behind the others and the worker awake if it slept,
  -- whether or not the queue is over `queue_size`.
  pub push_appends :
      (exit : Bool) (queue_size : ℕ) (e : E) (ch : Channel E)
      → ch.producer ≡ idle
      → worker_holds ch.worker ≡ false
      → run_moves exit queue_size (push queue_size e ch) ch
        ≡ some (record ch {
          queue = ch.queue ++ e ∷ [];
          pushed = ch.pushed ++ e ∷ [];
          worker = (wake ch ch.worker).worker;
        })
  unfolding push run_moves move
  push_appends exit queue_size e ch p w = elim (Bool-cases (ltb queue_size (length ch.queue))) [
    | inl over ↦ rw over (ground arith)
    | inr room ↦ rw room (ground arith)
  ]

  moved_then :
      (k k' : Channel E → Option (Channel E)) (mid : Channel E) (o : Option (Channel E))
      (r : Option (Channel E × Signal))
      → ((c : Channel E) → k c ≡ some mid → k' c ≡ o)
      → moved k r ≡ some mid
      → moved k' r ≡ o
  moved_then k k' mid o none ih h = cc
  moved_then k k' mid o (some (c, signal)) ih h = ih (deliver signal true c) h

  run_moves-append :
      (exit : Bool) (queue_size : ℕ) (ms ns : List (Move E)) (ch mid : Channel E)
      → run_moves exit queue_size ms ch ≡ some mid
      → run_moves exit queue_size (ms ++ ns) ch ≡ run_moves exit queue_size ns mid
  unfolding run_moves
  run_moves-append exit queue_size [] ns ch mid h =
      ap (run_moves exit queue_size ns) (some-injective _ _ h)
  run_moves-append exit queue_size (m ∷ ms) ns ch mid h =
      moved_then (run_moves exit queue_size ms) (run_moves exit queue_size (ms ++ ns)) mid
        (run_moves exit queue_size ns mid) (move exit queue_size m ch)
        (λ c e. run_moves-append exit queue_size ms ns c mid e) h

  -- While the worker stands at its batch and takes no step any number of entries can be pushed:
  -- whatever `queue_size` is, some schedule has them all in the queue, in order.
  pub queue_unbounded :
      (exit : Bool) (queue_size : ℕ) (es : List E) (ch : Channel E)
      → ch.producer ≡ idle
      → ch.worker ≡ draining
      → (ms : List (Move E)) × (run_moves exit queue_size ms ch
          ≡ some (record ch { queue = ch.queue ++ es; pushed = ch.pushed ++ es }))
  queue_unbounded exit queue_size [] ch p w =
      ([], unfold run_moves in ground (arith, append-nil ch.queue, append-nil ch.pushed))
  queue_unbounded exit queue_size (e ∷ es) ch p w =
      let one = record ch { queue = ch.queue ++ e ∷ []; pushed = ch.pushed ++ e ∷ [] } in
      let (ms, h) = queue_unbounded exit queue_size es one p w in
      (
        push queue_size e ch ++ ms,
        run_moves-append exit queue_size (push queue_size e ch) ms ch one
              (push_appends exit queue_size e ch p (rw w) ∙ ground arith)
            ∙ h
            ∙ ground (arith, append_assoc ch.queue (e ∷ []) es, append_assoc ch.pushed (e ∷ []) es),
      )
