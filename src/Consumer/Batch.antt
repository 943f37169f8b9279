-- ===== src/Consumer/Batch.antt =====
-- The loop over `process_queue` in run_blocks and run_traces (sql_db_plugin/consumer.hpp), with what
-- the consume call does to the database.
use eos_sql_db_plugin.Base.{◌≡◌, refl, ap, ◌∙◌, List, [], ◌∷◌, ◌++◌}
use eos_sql_db_plugin.Effect.{
  Result, ok, throws, Effect, pure, try_catch, ◌>>=◌, for_each, handled, continued,
}

module _ {S E : Type 0} (consume : E → Effect S (Unit {0})) where
  -- Every catch clause only logs, and `pop_front` follows it.
  unfoldable pub process : List E → Effect S (Unit {0})
  process process_queue = for_each process_queue (λ e. try_catch (consume e) (λ _. pure tt))

  -- The states that the consume calls leave, one after another, whether they return or throw.
  unfoldable pub after_all : S → List E → S
  after_all s [] = s
  after_all s (e ∷ es) = after_all (consume e s).1 es

  caught : (r : Result (Unit {0}) × S) → handled r (λ _. pure tt) ≡ (ok tt, r.1)
  unfolding pure
  caught (ok a, s) = refl
  caught (throws e, s) = refl

  -- A batch is consumed to its end: an entry whose consume call throws does not keep those behind it
  -- from theirs, and the loop itself throws nothing.
  pub process-eq-after_all : (es : List E) (s : S) → process es s ≡ (ok tt, after_all s es)
  unfolding process after_all for_each try_catch ◌>>=◌
  process-eq-after_all [] s = refl
  process-eq-after_all (e ∷ es) s =
      ap (λ (r : Result (Unit {0}) × S). continued r (λ _. process es)) (caught (consume e s))
      ∙ process-eq-after_all es (consume e s).1

  -- So batches in a row leave what one batch of all their entries would.
  pub after_all-append :
      (es fs : List E) (s : S) → after_all s (es ++ fs) ≡ after_all (after_all s es) fs
  unfolding after_all
  after_all-append [] fs s = refl
  after_all-append (e ∷ es) fs s = after_all-append es fs (consume e s).1
