-- ===== src/Effect/Yields.antt =====
-- A property of what a call returns.
use eos_sql_db_plugin.Base.{◌≡◌, refl, ap, subst}
use eos_sql_db_plugin.Effect.{Result, ok, throws, ok-injective, Effect, pure, continued, ◌>>=◌}

-- Whatever the call returns has the property.
abbrev pub Yields : {S A : Type 0} → (A → Type 0) → Effect S A → Type 0
Yields {S} {A} P m = (s s' : S) (a : A) → m s ≡ (ok a, s') → P a

module _ {S A : Type 0} (P : A → Type 0) where
  pub Yields-pure : (a : A) → P a → Yields P (pure {S = S} a)
  unfolding pure
  Yields-pure a p s s' b h =
      let e : ok a ≡ ok b = ap (λ (r : Result A × S). r.0) h in subst P (ok-injective a b e) p

  continued-Yields :
      {B : Type 0} (f : B → Effect S A) (r : Result B × S)
      → ((b : B) → Yields P (f b))
      → (s' : S) (a : A) → continued r f ≡ (ok a, s')
      → P a
  continued-Yields f (ok b, s) k s' a h = k b s s' a h
  continued-Yields f (throws e, s) k s' a h = cc

  pub Yields-bind :
      {B : Type 0} (m : Effect S B) (f : B → Effect S A)
      → ((b : B) → Yields P (f b))
      → Yields P (m >>= f)
  unfolding ◌>>=◌
  Yields-bind m f k s s' a h = continued-Yields f (m s) k s' a h

module _ {S A B : Type 0} (P : A → Type 0) (Q : B → Type 0) where
  continued_with :
      (f : B → Effect S A) (s : S) (r : Result B × S)
      → ((b : B) (t : S) → r ≡ (ok b, t) → Q b)
      → ((b : B) → Q b → Yields P (f b))
      → (s' : S) (a : A) → continued r f ≡ (ok a, s')
      → P a
  continued_with f s (ok b, t) q k s' a h = k b (q b t refl) t s' a h
  continued_with f s (throws e, t) q k s' a h = cc

  -- Where the first call is known to return.
  pub Yields-then :
      (m : Effect S B) (f : B → Effect S A)
      → Yields Q m
      → ((b : B) → Q b → Yields P (f b))
      → Yields P (m >>= f)
  unfolding ◌>>=◌
  Yields-then m f q k s s' a h = continued_with f s (m s) (λ b t e. q s t b e) k s' a h
