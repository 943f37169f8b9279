-- ===== src/Effect/Keeps.antt =====
-- A property of the state that a call keeps, whether it returns or throws: one rule for each way to
-- build a call.
use eos_sql_db_plugin.Base.{Bool, true, false, List, [], ◌∷◌, if◌then◌else◌}
use eos_sql_db_plugin.Effect.{
  Exception, Result, ok, throws, Effect, pure, lift, try_catch, ◌>>=◌, for_each, handled, continued,
}

pub record Keeps {S A : Type 0} (P : S → Type 0) (m : Effect S A) : Type 0 where
  pub after : (s : S) → P s → P (m s).1

module _ {S A : Type 0} {P : S → Type 0} where
  pub Keeps-pure : (a : A) → Keeps P (pure a)
  unfolding pure
  Keeps-pure a = record { after = λ s h. h }

  pub Keeps-lift : (r : Result A) → Keeps P (lift r)
  unfolding lift
  Keeps-lift r = record { after = λ s h. h }

  pub Keeps-if :
      (b : Bool) (m n : Effect S A) → Keeps P m → Keeps P n → Keeps P (if b then m else n)
  Keeps-if true m n km kn = km
  Keeps-if false m n km kn = kn

  handled_after :
      (r : Result A × S) (handler : Exception → Effect S A)
      → P r.1
      → ((e : Exception) → Keeps P (handler e))
      → P (handled r handler).1
  handled_after (ok a, s) handler h k = h
  handled_after (throws e, s) handler h k = (k e).after s h

  pub Keeps-try_catch :
      (m : Effect S A) (handler : Exception → Effect S A)
      → Keeps P m
      → ((e : Exception) → Keeps P (handler e))
      → Keeps P (try_catch m handler)
  unfolding try_catch
  Keeps-try_catch m handler km k = record {
    after = λ s h. handled_after (m s) handler (km.after s h) k;
  }

module _ {S A B : Type 0} {P : S → Type 0} where
  continued_after :
      (r : Result A × S) (f : A → Effect S B)
      → P r.1
      → ((a : A) → Keeps P (f a))
      → P (continued r f).1
  continued_after (ok a, s) f h k = (k a).after s h
  continued_after (throws e, s) f h k = h

  pub Keeps-bind :
      (m : Effect S A) (f : A → Effect S B)
      → Keeps P m
      → ((a : A) → Keeps P (f a))
      → Keeps P (m >>= f)
  unfolding ◌>>=◌
  Keeps-bind m f km k = record { after = λ s h. continued_after (m s) f (km.after s h) k }

module _ {S A : Type 0} {P : S → Type 0} where
  pub Keeps-for_each :
      (xs : List A) (body : A → Effect S (Unit {0}))
      → ((x : A) → Keeps P (body x))
      → Keeps P (for_each xs body)
  unfolding for_each
  Keeps-for_each [] body k = Keeps-pure tt
  Keeps-for_each (x ∷ xs) body k =
      Keeps-bind (body x) (λ _. for_each xs body) (k x) (λ _. Keeps-for_each xs body k)

pub ruleset keeps_rules =
    (Keeps-pure, Keeps-lift, Keeps-if, Keeps-try_catch, Keeps-bind, Keeps-for_each)
