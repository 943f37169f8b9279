-- ===== src/Consumer/Runs.antt =====
-- Schedules and reachable states of the consumer, and what a step of it can be.
use eos_sql_db_plugin.Base.{
  ℕ, ◌≡◌, refl, sym, subst, Bool, true, not, Option, none, some, some-injective, List, [], ◌∷◌,
}
use eos_sql_db_plugin.Consumer.Channel.{
  Worker, ended, Channel, Signal, notify_all, deliver, Move, move,
}
use eos_sql_db_plugin.Consumer.System.{
  Consumer, Event, on_blocks, on_traces, close, Closer, serving, raised, joining, joined,
  after_blocks, after_traces, join, close_at, step, run, run_from, Reach, here, next,
}

module _ {B T : Type 0} (queue_size : ℕ) where
  step_then :
      (e : Event B T) (es : List (Event B T)) (s u : Consumer B T) (r : Option (Consumer B T))
      → step queue_size e s ≡ r
      → run_from (run queue_size es) r ≡ some u
      → (t : Consumer B T) × (step queue_size e s ≡ some t) × (run queue_size es t ≡ some u)
  step_then e es s u none p h = cc
  step_then e es s u (some t) p h = (t, p, h)

  -- The first event of a schedule that runs.
  pub run-cons :
      (e : Event B T) (es : List (Event B T)) (s u : Consumer B T)
      → run queue_size (e ∷ es) s ≡ some u
      → (t : Consumer B T) × (step queue_size e s ≡ some t) × (run queue_size es t ≡ some u)
  unfolding run
  run-cons e es s u h = step_then e es s u (step queue_size e s) refl h

  pub Reach-run :
      {o : Consumer B T} (es : List (Event B T)) (s u : Consumer B T)
      → Reach queue_size o s
      → run queue_size es s ≡ some u
      → Reach queue_size o u
  Reach-run {o} [] s u r h =
      unfold run in subst (λ x. Reach queue_size o x) (some-injective _ _ h) r
  Reach-run (e ∷ es) s u r h =
      let (t, p, q) = run-cons e es s u h in Reach-run es t u (next e r p) q

  pub Reach-trans :
      {s t u : Consumer B T} → Reach queue_size s t → Reach queue_size t u → Reach queue_size s u
  Reach-trans r here = r
  Reach-trans r (next e q h) = next e (Reach-trans r q) h

-- The steps of the consumer, by what moved.
pub data Took {B T : Type 0} (queue_size : ℕ) (s t : Consumer B T) : Type 0 where
  blocks_moved :
      (picks : Bool) (m : Move B) (ch : Channel B) (signal : Signal)
      → move s.exit queue_size m s.blocks ≡ some (ch, signal)
      → t ≡ record s {
        blocks = deliver signal picks ch;
        traces = deliver signal (not picks) s.traces;
      }
      → Took queue_size s t
  traces_moved :
      (picks : Bool) (m : Move T) (ch : Channel T) (signal : Signal)
      → move s.exit queue_size m s.traces ≡ some (ch, signal)
      → t ≡ record s {
        blocks = deliver signal picks s.blocks;
        traces = deliver signal (not picks) ch;
      }
      → Took queue_size s t
  exit_raised : t ≡ record s { exit = true; closer = raised } → Took queue_size s t
  exit_notified :
      t ≡ record s {
        blocks = deliver notify_all true s.blocks;
        traces = deliver notify_all true s.traces;
        closer = joining;
      }
      → Took queue_size s t
  blocks_joined : s.blocks.worker ≡ ended → t ≡ record s { closer = joined } → Took queue_size s t

module _ {B T : Type 0} (queue_size : ℕ) (s t : Consumer B T) where
  blocks-Took :
      (picks : Bool) (m : Move B) (r : Option (Channel B × Signal))
      → move s.exit queue_size m s.blocks ≡ r
      → after_blocks s picks r ≡ some t
      → Took queue_size s t
  blocks-Took picks m none p h = cc
  blocks-Took picks m (some (ch, signal)) p h =
      blocks_moved picks m ch signal p (sym (some-injective _ _ h))

  traces-Took :
      (picks : Bool) (m : Move T) (r : Option (Channel T × Signal))
      → move s.exit queue_size m s.traces ≡ r
      → after_traces s picks r ≡ some t
      → Took queue_size s t
  traces-Took picks m none p h = cc
  traces-Took picks m (some (ch, signal)) p h =
      traces_moved picks m ch signal p (sym (some-injective _ _ h))

  join-Took : (w : Worker) → s.blocks.worker ≡ w → join s w ≡ some t → Took queue_size s t
  join-Took ended e h = blocks_joined e (sym (some-injective _ _ h))
  join-Took _ e h = cc

  close-Took : (c : Closer) → close_at s c ≡ some t → Took queue_size s t
  unfolding close_at
  close-Took serving h = exit_raised (sym (some-injective _ _ h))
  close-Took raised h = exit_notified (sym (some-injective _ _ h))
  close-Took joining h = join-Took s.blocks.worker refl h
  close-Took joined h = cc

  pub step-Took : (e : Event B T) → step queue_size e s ≡ some t → Took queue_size s t
  unfolding step
  step-Took (on_blocks picks m) h = blocks-Took picks m _ refl h
  step-Took (on_traces picks m) h = traces-Took picks m _ refl h
  step-Took close h = close-Took s.closer h
