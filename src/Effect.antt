-- ===== src/Effect.antt =====
-- Calls that read and write a state and may throw, for every file that talks to the database or
-- that catches exceptions. What was written before a throw stays written, so the state comes back
-- beside the exception too. An exception is what the catch clauses of the source tell apart.
pub mod Keeps
pub mod Hoare
pub mod Yields
pub mod Simulates
pub mod Silent
use eos_sql_db_plugin.Base.{◌≡◌, refl, List, [], ◌∷◌, ◌++◌, fun_ext}

-- `std_exception` is one that is neither a soci error of the MySQL backend nor an fc exception.
pub data Exception : Type 0 where
  fc_exception mysql_soci_error std_exception unknown : Exception

pub data Result (A : Type 0) : Type 0 where
  ok : A → Result A
  throws : Exception → Result A

pub ok-injective : {A : Type 0} (a b : A) → ok a ≡ ok b → a ≡ b
ok-injective a b e = cc

abbrev pub bind_result : {A B : Type 0} → Result A → (A → Result B) → Result B
bind_result (ok a) k = k a
bind_result (throws e) k = throws e

abbrev pub Effect : Type 0 → Type 0 → Type 0
Effect S A = S → Result A × S

module _ {S A : Type 0} where
  unfoldable pub pure : A → Effect S A
  pure a s = (ok a, s)

  unfoldable pub lift : Result A → Effect S A
  lift r s = (r, s)

  abbrev pub handled : Result A × S → (Exception → Effect S A) → Result A × S
  handled (ok a, s) handler = (ok a, s)
  handled (throws e, s) handler = handler e s

  -- `try { m } catch ...`: the handler gets what was thrown, and rethrows what no clause catches.
  unfoldable pub try_catch : Effect S A → (Exception → Effect S A) → Effect S A
  try_catch m handler s = handled (m s) handler

module _ {S A B : Type 0} where
  abbrev pub continued : Result A × S → (A → Effect S B) → Result B × S
  continued (ok a, s) f = f a s
  continued (throws e, s) f = (throws e, s)

  infixl 10 ◌>>=◌ ◌>>◌
  -- Opening this opens `pure`, `lift` and `try_catch` too.
  unfoldable pub ◌>>=◌ : Effect S A → (A → Effect S B) → Effect S B
  unfolding pure lift try_catch
  ◌>>=◌ m f s = continued (m s) f

  abbrev pub ◌>>◌ : Effect S A → Effect S B → Effect S B
  m >> n = m >>= λ _. n

-- A range-for whose body is an effect.
module _ {S A : Type 0} where
  unfoldable pub for_each : List A → (A → Effect S (Unit {0})) → Effect S (Unit {0})
  for_each [] body = pure tt
  for_each (x ∷ xs) body = body x >> for_each xs body

module _ {S A B C : Type 0} where
  pub continued_assoc :
      (f : A → Effect S B) (g : B → Effect S C) (r : Result A × S)
      → continued (continued r f) g ≡ continued r (λ a. f a >>= g)
  unfolding ◌>>=◌
  continued_assoc f g (ok a, s) = refl
  continued_assoc f g (throws e, s) = refl

  pub bind_assoc :
      (m : Effect S A) (f : A → Effect S B) (g : B → Effect S C)
      → (m >>= f >>= g) ≡ (m >>= λ a. f a >>= g)
  unfolding ◌>>=◌
  bind_assoc m f g = fun_ext λ s. continued_assoc f g (m s)

module _ {S A B : Type 0} where
  pub pure-bind : (a : A) (f : A → Effect S B) → (pure a >>= f) ≡ f a
  unfolding ◌>>=◌
  pure-bind a f = refl

  pub lift-bind : (a : A) (f : A → Effect S B) → (lift (ok a) >>= f) ≡ f a
  unfolding ◌>>=◌
  lift-bind a f = refl

module _ {S A : Type 0} where
  pub for_each-append :
      (xs ys : List A) (body : A → Effect S (Unit {0}))
      → for_each (xs ++ ys) body ≡ (for_each xs body >> for_each ys body)
  unfolding for_each
  for_each-append [] ys body = unfold ◌>>=◌ in refl
  for_each-append (x ∷ xs) ys body = simp (for_each-append xs ys body, bind_assoc)

module _ {S A : Type 0} where
  -- A destructor: `clean` runs when the scope of `m` is left, by a return or by a throw.
  unfoldable pub finally : Effect S A → (S → S) → Effect S A
  finally m clean s = let (r, s') = m s in (r, clean s')

  abbrev pub cleaned : Result A × S → (S → S) → Result A × S
  cleaned (ok a, s) clean = (ok a, s)
  cleaned (throws e, s) clean = (throws e, clean s)

  -- The same, where a return hands the resource on.
  unfoldable pub on_throw : Effect S A → (S → S) → Effect S A
  on_throw m clean s = cleaned (m s) clean
