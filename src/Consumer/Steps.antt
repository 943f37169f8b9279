-- ===== src/Consumer/Steps.antt =====
-- The steps of the whole consumer (sql_db_plugin/consumer.hpp), by the entries of both queues.
use eos_sql_db_plugin.Base.{
  ℕ, ◌≡◌, refl, sym, ap, ◌∙◌, subst, Bool, true, not, some, some-injective, List, [], ◌∷◌, ◌++◌,
}
use eos_sql_db_plugin.Consumer.Channel.{
  Channel, Signal, notify_all, deliver, Worker, ended, Move, move,
}
use eos_sql_db_plugin.Consumer.Invariant.{Inv}
use eos_sql_db_plugin.Consumer.Flow.{in_flight, taken_in, deliver_kept, deliver_consumed}
use eos_sql_db_plugin.Consumer.System.{
  Consumer, on_blocks, on_traces, close, initial, step, after_blocks, after_traces, Reach, Closer,
  serving, raised, joining, joined, join, close_at, next,
}

pub empty_left : {A : Type 0} (xs ys : List A) → xs ++ ys ≡ [] → xs ≡ []
empty_left [] ys h = refl
empty_left (x ∷ xs) ys h = cc

pub empty_right : {A : Type 0} (xs ys : List A) → xs ++ ys ≡ [] → ys ≡ []
empty_right [] ys h = h
empty_right (x ∷ xs) ys h = cc

pub consumed_empty : {E : Type 0} (ch : Channel E) → Inv ch → taken_in ch ≡ [] → ch.consumed ≡ []
consumed_empty ch v h =
    empty_left ch.consumed (ch.process_queue ++ ch.queue)
      (sym v.flow ∙ empty_left ch.pushed (in_flight ch.producer) h)

module _ {B T : Type 0} (queue_size : ℕ) (s : Consumer B T) (picks : Bool) where
  pub Reach-on_blocks :
      (m : Move B) (ch : Channel B) (sig : Signal)
      → Reach queue_size initial s
      → move s.exit queue_size m s.blocks ≡ some (ch, sig)
      → Reach queue_size initial
          (record s { blocks = deliver sig picks ch; traces = deliver sig (not picks) s.traces })
  unfolding step
  Reach-on_blocks m ch sig r p = next (on_blocks picks m) r (ap (after_blocks s picks) p)

  pub Reach-on_traces :
      (m : Move T) (ch : Channel T) (sig : Signal)
      → Reach queue_size initial s
      → move s.exit queue_size m s.traces ≡ some (ch, sig)
      → Reach queue_size initial
          (record s { blocks = deliver sig picks s.blocks; traces = deliver sig (not picks) ch })
  unfolding step
  Reach-on_traces m ch sig r p = next (on_traces picks m) r (ap (after_traces s picks) p)

-- The same entries in both queues, and as many consumed.
pub record Unmoved {B T : Type 0} (s t : Consumer B T) : Type 0 where
  pub blocks : taken_in t.blocks ≡ taken_in s.blocks
  pub traces : taken_in t.traces ≡ taken_in s.traces
  pub consumed : t.traces.consumed ≡ s.traces.consumed

module _ {B T : Type 0} (queue_size : ℕ) (s t : Consumer B T) where
  join-Unmoved : (w : Worker) → join s w ≡ some t → Unmoved s t
  join-Unmoved ended h =
      subst (Unmoved s) (some-injective _ _ h)
        (record { blocks = refl; traces = refl; consumed = refl })
  join-Unmoved _ h = cc

  close_at-Unmoved : (k : Closer) → close_at s k ≡ some t → Unmoved s t
  unfolding close_at
  close_at-Unmoved serving h =
      subst (Unmoved s) (some-injective _ _ h)
        (record { blocks = refl; traces = refl; consumed = refl })
  close_at-Unmoved raised h = subst (Unmoved s) (some-injective _ _ h) (record {
    blocks = deliver_kept notify_all true s.blocks;
    traces = deliver_kept notify_all true s.traces;
    consumed = deliver_consumed notify_all true s.traces;
  })
  close_at-Unmoved joining h = join-Unmoved s.blocks.worker h
  close_at-Unmoved joined h = cc

  pub close-Unmoved : step queue_size close s ≡ some t → Unmoved s t
  unfolding step
  close-Unmoved h = close_at-Unmoved s.closer h
