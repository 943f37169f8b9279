-- ===== src/Consumer/Ending.antt =====
-- When a worker of the consumer (sql_db_plugin/consumer.hpp) can have ended.
use eos_sql_db_plugin.Base.{
  ℕ, ◌≡◌, refl, sym, ap, ◌∙◌, Bool, true, false, not, some, List, [], ◌∷◌, arith,
}
use eos_sql_db_plugin.Consumer.Channel.{
  Worker, asleep, draining, ended, Producer, Channel, Signal, silent, notify_one, notify_all,
  take_all, drain_one, work_at, produce_at, call_at, wake, deliver, Move, work, produce, spurious,
  call, move, idle,
}
use eos_sql_db_plugin.Consumer.System.{Consumer, initial, Reach, here, next}
use eos_sql_db_plugin.Consumer.Runs.{
  Took, blocks_moved, traces_moved, exit_raised, exit_notified, blocks_joined, step-Took,
}

-- A worker that has ended has found `exit` set.
abbrev pub is_ended : Worker → Bool
is_ended ended = true
is_ended _ = false

module _ {E : Type 0} where
  wake-ended :
      (ch : Channel E) (w : Worker) → ch.worker ≡ w → is_ended (wake ch w).worker ≡ is_ended w
  wake-ended ch asleep e = refl
  wake-ended ch w e = ap is_ended e

  deliver-ended :
      (sig : Signal) (chosen : Bool) (ch : Channel E)
      → is_ended (deliver sig chosen ch).worker ≡ is_ended ch.worker
  deliver-ended silent chosen ch = refl
  deliver-ended notify_one true ch = wake-ended ch ch.worker refl
  deliver-ended notify_one false ch = refl
  deliver-ended notify_all chosen ch = wake-ended ch ch.worker refl

  drain_one-ended :
      (ch : Channel E) (l : List E)
      → ch.worker ≡ draining
      → is_ended (drain_one ch l).0.worker ≡ false
  unfolding drain_one
  drain_one-ended ch [] w = refl
  drain_one-ended ch (x ∷ l) w = ground arith

  work_at-ended :
      (exit : Bool) (ch ch' : Channel E) (w : Worker) (sig : Signal)
      → ch.worker ≡ w
      → work_at exit ch w ≡ some (ch', sig)
      → is_ended ch'.worker ≡ true
      → exit ≡ true
  unfolding work_at take_all
  work_at-ended exit ch ch' draining sig e h k =
      ground (arith, drain_one-ended ch ch.process_queue e)
  work_at-ended exit ch ch' w sig e h k = ground arith

  produce_at-ended :
      (queue_size : ℕ) (ch ch' : Channel E) (p : Producer E) (sig : Signal)
      → produce_at queue_size ch p ≡ some (ch', sig)
      → ch'.worker ≡ ch.worker
  unfolding produce_at
  produce_at-ended queue_size ch ch' idle sig h = cc
  produce_at-ended queue_size ch ch' p sig h = ground arith

  call_at-ended :
      (e : E) (ch ch' : Channel E) (p : Producer E) (sig : Signal)
      → call_at e ch p ≡ some (ch', sig)
      → ch'.worker ≡ ch.worker
  unfolding call_at
  call_at-ended e ch ch' idle sig h = ground arith
  call_at-ended e ch ch' p sig h = cc

  move-ended :
      (exit : Bool) (queue_size : ℕ) (m : Move E) (ch ch' : Channel E) (sig : Signal)
      → move exit queue_size m ch ≡ some (ch', sig)
      → (is_ended ch.worker ≡ true → exit ≡ true)
      → is_ended ch'.worker ≡ true
      → exit ≡ true
  unfolding move
  move-ended exit queue_size work ch ch' sig h b k =
      work_at-ended exit ch ch' ch.worker sig refl h k
  move-ended exit queue_size produce ch ch' sig h b k =
      b (ap is_ended (sym (produce_at-ended queue_size ch ch' ch.producer sig h)) ∙ k)
  move-ended exit queue_size (call e) ch ch' sig h b k =
      b (ap is_ended (sym (call_at-ended e ch ch' ch.producer sig h)) ∙ k)
  move-ended exit queue_size spurious ch ch' sig h b k =
      let same : wake ch ch.worker ≡ ch' = cc in
      b (sym (wake-ended ch ch.worker refl) ∙ ap (λ (x : Channel E). is_ended x.worker) same ∙ k)

module _ {B T : Type 0} (queue_size : ℕ) where
  Took-ended :
      (s t : Consumer B T)
      → (is_ended s.traces.worker ≡ true → s.exit ≡ true)
      → Took queue_size s t
      → is_ended t.traces.worker ≡ true
      → t.exit ≡ true
  Took-ended s t b (blocks_moved picks m ch sig p e) =
      rw e (λ k. b (sym (deliver-ended sig (not picks) s.traces) ∙ k))
  Took-ended s t b (traces_moved picks m ch sig p e) = rw e (λ k.
      move-ended s.exit queue_size m s.traces ch sig p b
        (sym (deliver-ended sig (not picks) ch) ∙ k))
  Took-ended s t b (exit_raised e) = rw e (λ k. refl)
  Took-ended s t b (exit_notified e) =
      rw e (λ k. b (sym (deliver-ended notify_all true s.traces) ∙ k))
  Took-ended s t b (blocks_joined w e) = rw e b

  pub Reach-ended :
      {s : Consumer B T}
      → Reach queue_size initial s
      → is_ended s.traces.worker ≡ true
      → s.exit ≡ true
  Reach-ended here k = cc
  Reach-ended (next {t = t} {u = u} e r h) k =
      Took-ended t u (Reach-ended r) (step-Took queue_size t u e h) k
