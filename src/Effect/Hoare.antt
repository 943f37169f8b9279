-- ===== src/Effect/Hoare.antt =====
-- Calls by what holds before them and, where they return, after them.
use eos_sql_db_plugin.Base.{◌≡◌, refl, ap, subst, Bool, true, false, if◌then◌else◌}
use eos_sql_db_plugin.Effect.{
  Result, ok, throws, ok-injective, Effect, pure, ◌>>=◌, finally, continued,
}
use eos_sql_db_plugin.Effect.Keeps.{Keeps}

-- Where `m` returns from a state that has `P`, its answer and the state after it have `Q`.
abbrev pub Triple : {S A : Type 0} → (S → Type 0) → Effect S A → (A → S → Type 0) → Type 0
Triple {S} {A} P m Q = (s s' : S) (a : A) → P s → m s ≡ (ok a, s') → Q a s'

module _ {S A : Type 0} {P : S → Type 0} where
  -- From an equation for the call.
  pub Triple-of :
      (m : Effect S A) (Q : A → S → Type 0)
      → ((s : S) → P s → (a : A) × (t : S) × (m s ≡ (ok a, t)) × Q a t)
      → Triple P m Q
  Triple-of m Q runs s s' a h e =
      let (b, t, e', q) = runs s h in
      let same : ok b ≡ ok a = cc in
      let after : t ≡ s' = cc in
      subst (λ x. Q x s') (ok-injective b a same) (subst (λ u. Q b u) after q)

  pub Triple-Keeps : (m : Effect S A) → Keeps P m → Triple P m (λ _. P)
  Triple-Keeps m k s s' a h e = subst P (ap (λ (r : Result A × S). r.1) e) (k.after s h)

  pub Triple-pure : (a : A) (Q : A → S → Type 0) → ((s : S) → P s → Q a s) → Triple P (pure a) Q
  unfolding pure
  Triple-pure a Q h = Triple-of (λ s. (ok a, s)) Q (λ s p. (a, s, refl, h s p))

  pub Triple-if :
      (b : Bool) (m n : Effect S A) (Q : A → S → Type 0)
      → (b ≡ true → Triple P m Q)
      → (b ≡ false → Triple P n Q)
      → Triple P (if b then m else n) Q
  Triple-if true m n Q h k = h refl
  Triple-if false m n Q h k = k refl

module _ {S A B : Type 0} (f : A → Effect S B) (Q : A → S → Type 0) (R : B → S → Type 0)
    (h : (a : A) → Triple (Q a) (f a) R) where
  continued_lem :
      (r : Result A × S)
      → ((s' : S) (a : A) → r ≡ (ok a, s') → Q a s')
      → (s' : S) (b : B) → continued r f ≡ (ok b, s')
      → R b s'
  continued_lem (ok a, s) q s' b e = h a s s' b (q s a refl) e
  continued_lem (throws x, s) q s' b e = cc

  pub Triple-bind : {P : S → Type 0} (m : Effect S A) → Triple P m Q → Triple P (m >>= f) R
  unfolding ◌>>=◌
  Triple-bind m k s s' b p e = continued_lem (m s) (λ t a. k s t a p) s' b e

module _ {S A : Type 0} {P : S → Type 0} where
  pub Triple-finally :
      (m : Effect S A) (clean : S → S) (Q : A → S → Type 0)
      → Triple P m Q
      → ((a : A) (s : S) → Q a s → Q a (clean s))
      → Triple P (finally m clean) Q
  unfolding finally
  Triple-finally m clean Q k c s s' a p e =
      let returned : (m s).0 ≡ ok a = ap (λ (r : Result A × S). r.0) e in
      let after : clean (m s).1 ≡ s' = ap (λ (r : Result A × S). r.1) e in
      subst (Q a) after
        (c a (m s).1 (k s (m s).1 a p (ap (λ (r : Result A). (r, (m s).1)) returned)))

  -- What holds before whatever the state is goes to the hypotheses.
  pub Triple-given :
      {F : Type 0} (m : Effect S A) (Q : A → S → Type 0)
      → (F → Triple P m Q)
      → Triple (λ s. F × P s) m Q
  Triple-given m Q h s s' a p e = h p.0 s s' a p.1 e
