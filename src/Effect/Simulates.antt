-- ===== src/Effect/Simulates.antt =====
-- Calls on one state that do to a view of it what other calls do there: one rule for each way to build
-- a call.
use eos_sql_db_plugin.Base.{◌≡◌, refl, ap, ◌∙◌, Bool, true, false, List, [], ◌∷◌, if◌then◌else◌}
use eos_sql_db_plugin.Effect.{
  Exception, Result, ok, throws, Effect, pure, lift, try_catch, ◌>>=◌, for_each, handled, continued,
}

abbrev pub seen : {S T A : Type 0} → (S → T) → Result A × S → Result A × T
seen view r = (r.0, view r.1)

-- The call `m` answers what `n` answers on the view, and leaves what has the view that `n` leaves.
pub record Simulates {S T A : Type 0} (view : S → T) (m : Effect S A) (n : Effect T A)
    : Type 0 where
  pub agrees : (s : S) → seen view (m s) ≡ n (view s)

module _ {S T : Type 0} {view : S → T} where
  module _ {A : Type 0} where
    pub Simulates-pure : (a : A) → Simulates view (pure a) (pure a)
    unfolding pure
    Simulates-pure a = record { agrees = λ s. refl }

    pub Simulates-lift : (r : Result A) → Simulates view (lift r) (lift r)
    unfolding lift
    Simulates-lift r = record { agrees = λ s. refl }

    pub Simulates-if :
        (b : Bool) (m m' : Effect S A) (n n' : Effect T A)
        → Simulates view m n
        → Simulates view m' n'
        → Simulates view (if b then m else m') (if b then n else n')
    Simulates-if true m m' n n' h k = h
    Simulates-if false m m' n n' h k = k

    seen-handled :
        (f : Exception → Effect S A) (g : Exception → Effect T A)
        → ((e : Exception) → Simulates view (f e) (g e))
        → (r : Result A × S) → seen view (handled r f) ≡ handled (seen view r) g
    seen-handled f g h (ok a, s) = refl
    seen-handled f g h (throws e, s) = (h e).agrees s

    pub Simulates-try_catch :
        (m : Effect S A) (n : Effect T A) (f : Exception → Effect S A) (g : Exception → Effect T A)
        → Simulates view m n
        → ((e : Exception) → Simulates view (f e) (g e))
        → Simulates view (try_catch m f) (try_catch n g)
    unfolding try_catch
    Simulates-try_catch m n f g k h = record {
      agrees = λ s. seen-handled f g h (m s) ∙ ap (λ r. handled r g) (k.agrees s);
    }

  module _ {A B : Type 0} where
    seen-continued :
        (f : A → Effect S B) (g : A → Effect T B)
        → ((a : A) → Simulates view (f a) (g a))
        → (r : Result A × S) → seen view (continued r f) ≡ continued (seen view r) g
    seen-continued f g h (ok a, s) = (h a).agrees s
    seen-continued f g h (throws e, s) = refl

    pub Simulates-bind :
        (m : Effect S A) (n : Effect T A) (f : A → Effect S B) (g : A → Effect T B)
        → Simulates view m n
        → ((a : A) → Simulates view (f a) (g a))
        → Simulates view (m >>= f) (n >>= g)
    unfolding ◌>>=◌
    Simulates-bind m n f g k h = record {
      agrees = λ s. seen-continued f g h (m s) ∙ ap (λ r. continued r g) (k.agrees s);
    }

  pub Simulates-for_each :
      {A : Type 0} (xs : List A) (f : A → Effect S (Unit {0})) (g : A → Effect T (Unit {0}))
      → ((x : A) → Simulates view (f x) (g x))
      → Simulates view (for_each xs f) (for_each xs g)
  unfolding for_each
  Simulates-for_each [] f g h = Simulates-pure tt
  Simulates-for_each (x ∷ xs) f g h =
      Simulates-bind _ _ _ _ (h x) (λ _. Simulates-for_each xs f g h)

pub ruleset simulates_rules = (
  Simulates-pure, Simulates-lift, Simulates-if, Simulates-try_catch, Simulates-bind,
  Simulates-for_each,
)
