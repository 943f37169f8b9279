-- ===== src/Effect/Silent.antt =====
-- Calls that return and leave a view of the state as it was.
use eos_sql_db_plugin.Base.{◌≡◌, refl, ap, ◌∙◌, Bool, true, false, if◌then◌else◌}
use eos_sql_db_plugin.Effect.{
  Exception, ok, Effect, pure, try_catch, ◌>>=◌, handled, continued, on_throw, cleaned,
}

pub record Silent {S T A : Type 0} (view : S → T) (m : Effect S A) : Type 0 where
  pub passes : (s : S) → (a : A) × (t : S) × (m s ≡ (ok a, t)) × (view t ≡ view s)

module _ {S T : Type 0} {view : S → T} where
  module _ {A : Type 0} where
    pub Silent-pure : (a : A) → Silent view (pure a)
    unfolding pure
    Silent-pure a = record { passes = λ s. (a, s, refl, refl) }

    pub Silent-if :
        (b : Bool) (m n : Effect S A)
        → Silent view m
        → Silent view n
        → Silent view (if b then m else n)
    Silent-if true m n h k = h
    Silent-if false m n h k = k

    pub Silent-try_catch :
        (m : Effect S A) (handler : Exception → Effect S A)
        → Silent view m
        → Silent view (try_catch m handler)
    unfolding try_catch
    Silent-try_catch m handler h = record {
      passes = λ s. let (a, t, e, k) = h.passes s in (a, t, ap (λ r. handled r handler) e, k);
    }

    pub Silent-on_throw :
        (m : Effect S A) (clean : S → S) → Silent view m → Silent view (on_throw m clean)
    unfolding on_throw
    Silent-on_throw m clean h = record {
      passes = λ s. let (a, t, e, k) = h.passes s in (a, t, ap (λ r. cleaned r clean) e, k);
    }

  pub Silent-bind :
      {A B : Type 0} (m : Effect S A) (f : A → Effect S B)
      → Silent view m
      → ((a : A) → Silent view (f a))
      → Silent view (m >>= f)
  unfolding ◌>>=◌
  Silent-bind m f h k = record {
    passes = λ s.
        let (a, t, e, same) = h.passes s in
        let (b, u, e', same') = (k a).passes t in
        (b, u, ap (λ r. continued r f) e ∙ e', same' ∙ same);
  }
