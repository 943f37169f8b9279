-- ===== src/Tests/Proposing.antt =====
-- The theorem on the rows of the table proposal at a concrete server.
use eos_sql_db_plugin.Base.{
  Bool, true, false, ◌&&◌, not, ltb, ℕ, suc, String, ◌≡◌, refl, Option, none, some, List, [], ◌∷◌,
  str_eq, if◌then◌else◌,
}
use eos_sql_db_plugin.Effect.{
  mysql_soci_error, throws, Effect, Result, ok, pure, try_catch, for_each,
}
use eos_sql_db_plugin.Sql.{Driver, Value, text, Statement, Reply}
use eos_sql_db_plugin.Chain.{Action}
use eos_sql_db_plugin.Actions.Statements.{proposal_upsert, proposal_delete}
use eos_sql_db_plugin.Actions.Parse.{record_action}
use eos_sql_db_plugin.Actions.Lifecycle.{
  ProposalLaws, answered, put, drop, answered_all, requests, record_action-answered_all,
}
use eos_sql_db_plugin.Tests.Worlds.{no_rows, plain}

-- The table as a function from its key.
abbrev Table : Type 0
Table = (proposer proposal_name : String) → Option String

abbrev size : String → ℕ
size String.[] = 0
size (String.◌∷◌ c s) = suc (size s)

-- The columns proposer and proposal_name have room for 16 characters; of the texts of
-- requested_approvals only the empty one is refused.
abbrev fits : (proposer proposal_name requested : String) → Bool
fits p n r = ltb (size p) 17 && ltb (size n) 17 && not (str_eq r "")

abbrev stored : (fit : Bool) (p n r : String) → Effect Table Reply
stored true p n r f = (ok no_rows, λ p' n'. answered p' n' (put p n r) (f p' n'))
stored false p n r f = (throws mysql_soci_error, f)

abbrev upserted : List Value → Effect Table Reply
upserted (text p ∷ text n ∷ text r ∷ _) f = stored (fits p n r) p n r f
upserted _ f = (throws mysql_soci_error, f)

abbrev deleted : List Value → Effect Table Reply
deleted (text p ∷ text n ∷ []) f = (ok no_rows, λ p' n'. answered p' n' (drop p n) (f p' n'))
deleted _ f = (throws mysql_soci_error, f)

abbrev executed : Statement → Effect Table Reply
executed st f =
    if str_eq st.query (proposal_delete "" "").query then deleted st.uses f else upserted st.uses f

abbrev tabular : Driver
tabular = record {
  Db = Table;
  connect = λ i uri f. (ok tt, f);
  lease = λ f. (ok 0, f);
  give_back = λ pos f. f;
  mysql_ping = λ f. (ok 0, f);
  reconnect = λ f. (ok tt, f);
  execute = executed;
}

stored-row :
    (fit : Bool) (p n r : String) (f : Table)
    → (q : Result Reply) × (t : Table) × (stored fit p n r f ≡ (q, t))
      × ((p' n' : String)
          → t p' n' ≡ (if fit then answered p' n' (put p n r) (f p' n') else f p' n'))
stored-row true p n r f = (_, _, refl, λ p' n'. refl)
stored-row false p n r f = (_, _, refl, λ p' n'. refl)

abbrev tabular_laws : ProposalLaws tabular
tabular_laws = record {
  accepts = fits;
  requested_of = λ f. f;
  upserts = λ p n r f. stored-row (fits p n r) p n r f;
  deletes = λ p n f. (_, _, refl, λ p' n'. refl);
}

abbrev msig_action : (name : String) → Action
msig_action name = record {
  account = "eosio.msig";
  name = name;
  authorization = [];
  bytes = 1 ∷ [];
}

abbrev life : List (Action × String)
life = (msig_action "propose", "v") ∷ (msig_action "approve", "v") ∷ (msig_action "exec", "v") ∷ []

abbrev no_proposals : Table
no_proposals p n = none

record_action-answered_all_example :
    (t : Table) × (for_each life
        (λ x. try_catch (record_action tabular plain x.0 x.1) (λ _. pure tt))
        no_proposals
      ≡ (ok tt, t))
    × ((p n : String) → t p n ≡ answered_all p n (requests plain fits life) none)
record_action-answered_all_example =
    record_action-answered_all tabular tabular_laws plain refl life no_proposals
      (refl, (refl, (refl, tt)))

-- The proposal is there after propose and approve, and gone after exec.
life_test :
    (answered_all "proposer" "proposal_name" (requests plain fits life) none ≡ none)
    × (answered_all "proposer" "proposal_name"
          (requests plain fits ((msig_action "propose", "v") ∷ (msig_action "approve", "v") ∷ []))
          none
        ≡ some "requested")
life_test = (refl, refl)

-- A name of 17 characters is refused.
refused_test :
    executed (proposal_upsert "alice" "a23456789012345_7" "bob") no_proposals
    ≡ (throws mysql_soci_error, no_proposals)
refused_test = refl
