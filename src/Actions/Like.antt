-- ===== src/Actions/Like.antt =====
-- The query of actions_table::get_proposal, which holds the account name in its text.
use Prim.Native.Char.{code}
use Prim.Native.String.{◌++◌ as append}
use package.text.Mathlib.TextLemmas.{cons-append, nil-append}
use eos_sql_db_plugin.Base.{
  ◌+◌, String, ◌≡◌, refl, Bool, true, false, not, ◌||◌, arith, ◌==◌, if◌then◌else◌,
}
use eos_sql_db_plugin.Sql.{IsBound, placeholders, placeholders_from}
use eos_sql_db_plugin.Actions.Statements.{proposals_like}

abbrev pub has_quote : String → Bool
has_quote String.[] = false
has_quote (String.◌∷◌ c s) = code c == 39 || has_quote s

-- Whether a text ends inside single quotes.
quoted_after : Bool → String → Bool
quoted_after quoted String.[] = quoted
quoted_after quoted (String.◌∷◌ c s) = quoted_after (if code c == 39 then not quoted else quoted) s

placeholders_from-append :
    (quoted : Bool) (s t : String)
    → placeholders_from quoted (append s t)
      ≡ placeholders_from quoted s + placeholders_from (quoted_after quoted s) t
unfolding placeholders_from quoted_after
placeholders_from-append quoted String.[] t = rw nil-append (omega arith)
placeholders_from-append quoted (String.◌∷◌ c s) t =
    rw cons-append
      (ground (arith, placeholders_from-append (if code c == 39 then not quoted else quoted) s t))

no_placeholders :
    (s : String)
    → has_quote s ≡ false
    → (placeholders_from true s ≡ 0) × (quoted_after true s ≡ true)
unfolding placeholders_from quoted_after
no_placeholders String.[] h = (refl, refl)
no_placeholders (String.◌∷◌ c s) h = ground (arith, no_placeholders s)

-- For an account name without a single quote the query of get_proposal has no placeholder, as it binds
-- no value: the colon behind `"actor"` and those of the name stand inside the quotes of the pattern.
pub proposals_like-IsBound :
    (account : String) → has_quote account ≡ false → IsBound (proposals_like account)
unfolding placeholders placeholders_from quoted_after
proposals_like-IsBound account h =
    let none_in = (no_placeholders account h).0 in simp (placeholders_from-append, none_in)
