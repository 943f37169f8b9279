-- ===== src/Http/Members.antt =====
-- How fc reads the members of a class with FC_REFLECT from an object.
use eos_sql_db_plugin.Base.{
  String, ◌≡◌, refl, sym, ap, ◌∙◌, Bool, true, Option, none, some, List, [], ◌∷◌,
}
use eos_sql_db_plugin.Effect.{Result, ok, ok-injective, bind_result}
use eos_sql_db_plugin.Api.Params.{JsonLib, member}

-- A member, if the object has it.
abbrev pub set_found : {A J : Type 0} → Option J → (J → A → Result A) → A → Result A
set_found none set a = ok a
set_found (some v) set a = set v a

-- The members of a class from what an object has of them, in order.
unfoldable pub read_members :
    {A J : Type 0} → (String → Option J) → List (String × (J → A → Result A)) → A → Result A
read_members found [] a = ok a
read_members found ((name, set) ∷ members) a =
    bind_result (set_found (found name) set a) (read_members found members)

-- What fc documents of a class with FC_REFLECT: the members that the object has are converted and set,
-- the others stay.
pub record JsonLaws (jl : JsonLib) : Type 1 where
  pub is_object : jl.Json → Bool
  pub found : jl.Json → String → Option jl.Json
  pub from_members_reads :
      {A : Type 0} (members : List (String × (jl.Json → A → Result A))) (a : A) (v : jl.Json)
      → is_object v ≡ true
      → jl.from_members members a v ≡ read_members (found v) members a

-- A member that may be missing.
abbrev pub given_or : {B J : Type 0} → B → (J → Result B) → Option J → Result B
given_or default convert none = ok default
given_or default convert (some v) = convert v

module _ {A B J : Type 0} (name : String) (convert : J → Result B) (put : B → A → A) where
  set_found_lem :
      (default b : B) (a : A) (o : Option J)
      → put default a ≡ a
      → given_or default convert o ≡ ok b
      → set_found o (member name convert put).1 a ≡ ok (put b a)
  set_found_lem default b a none p g =
      ap (λ (x : A). ok x) (sym p ∙ ap (λ (x : B). put x a) (ok-injective default b g))
  set_found_lem default b a (some v) p g = rw g refl

  pub read_member :
      (look : String → Option J) (members : List (String × (J → A → Result A))) (default b : B)
      (a : A)
      → put default a ≡ a
      → given_or default convert (look name) ≡ ok b
      → read_members look (member name convert put ∷ members) a
        ≡ read_members look members (put b a)
  unfolding read_members
  read_member look members default b a p g =
      ap (λ r. bind_result r (read_members look members))
        (set_found_lem default b a (look name) p g)
