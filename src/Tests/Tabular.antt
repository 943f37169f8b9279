-- ===== src/Tests/Tabular.antt =====
-- A server whose state is what the tables hold: the statements of actions_table by the reference of
-- Contents, its queries by the rows.
use Prim.Native.Char.{code}
use Prim.Native.String.{◌++◌ as append}
use package.text.Mathlib.TextLemmas.{cons-append}
use eos_sql_db_plugin.Base.{
  ℕ, zero, suc, String, ◌≡◌, refl, Bool, Option, none, some, List, [], ◌∷◌, ◌==◌, str_eq,
  if◌then◌else◌,
}
use eos_sql_db_plugin.Base.Int.{pos}
use eos_sql_db_plugin.Effect.{Exception, mysql_soci_error, Effect, Result, ok}
use eos_sql_db_plugin.Effect.Simulates.{Simulates}
use eos_sql_db_plugin.Sql.{
  Pool, of_sql_db, of_db_blocks, Pools, driver, Reply, Statement, Value, text, number,
}
use eos_sql_db_plugin.Actions.Statements.{assets_page, proposals_like}
use eos_sql_db_plugin.Actions.Issued.{
  Issued, abi_selected, abi_stored, account_named, key_given, vote_cast, proposed, proposal_ended,
  asset_created, row_inserted,
}
use eos_sql_db_plugin.Contents.{Contents, Write, write_abi, add_row, Server}
use eos_sql_db_plugin.Contents.Reference.{reference}
use eos_sql_db_plugin.Contents.Laws.{SilentPool, ServerLaws}
use eos_sql_db_plugin.Contents.Queries.{
  asset_rows, asset_page, pending_rows, proposal_columns, QueryLaws,
}

-- Refuses an empty text, which is no JSON.
abbrev pub refusal : Write → Option Exception
refusal (write_abi account String.[] update) = some mysql_soci_error
refusal (add_row before String.[] behind) = some mysql_soci_error
refusal _ = none

abbrev pub strict : Server
strict = record { column = λ t. t; refused = λ w s. refusal w; affected = λ command s. 1 }

-- For a text that names one account: the query for that account is this one.
abbrev pub names : (requested account : String) → Bool
names requested account = str_eq (proposals_like account).query (proposals_like requested).query

-- The character at a place of a text.
unfoldable pub at : ℕ → String → Option ℕ
at i String.[] = none
at zero (String.◌∷◌ c s) = some (code c)
at (suc i) (String.◌∷◌ c s) = at i s

at-append : (i k : ℕ) (s t : String) → at i s ≡ some k → at i (append s t) ≡ some k
unfolding at
at-append i k String.[] t h = cc
at-append zero k (String.◌∷◌ c s) t h = rw cons-append h
at-append (suc i) k (String.◌∷◌ c s) t h = rw cons-append (at-append i k s t h)

abbrev rows : List (List Value) → Contents → Result Reply × Contents
rows l s = (ok (record { rows = l; affected_rows = 0 }), s)

-- The two queries without a value: the one on proposal has a `p` at place 7.
abbrev unbound : Option ℕ → String → Contents → Result Reply × Contents
unbound none query s = rows [] s
unbound (some k) query s =
    if k == 112
    then rows (proposal_columns (λ t. str_eq query (proposals_like t).query) s.proposals) s
    else rows (asset_rows s) s

abbrev paged : List Value → Contents → Result Reply × Contents
paged (number (pos start) ∷ number (pos size) ∷ _) s = rows (asset_page start size s) s
paged _ s = rows [] s

abbrev answer : Statement → List Value → Effect Contents Reply
answer st [] s = unbound (at 7 st.query) st.query s
answer st (v ∷ vs) s =
    if str_eq st.query (assets_page (pos 0) (pos 0)).query
    then paged st.uses s
    else (reference strict).execute st s

abbrev pub server : Pools
server = record {
  Db = Contents;
  connect = λ pool i uri s. (ok tt, s);
  lease = λ pool s. (ok 0, s);
  give_back = λ pool i s. s;
  mysql_ping = λ pool s. (ok 0, s);
  reconnect = λ pool s. (ok tt, s);
  execute = λ pool st. answer st st.uses;
}

abbrev silent_pool : (pool : Pool) → SilentPool (driver server pool) (λ s. s)
silent_pool pool = record {
  lease_silent = record { passes = λ s. (0, s, refl, refl) };
  give_back_silent = λ i s. refl;
  ping_silent = record { passes = λ s. (0, s, refl, refl) };
  reconnect_silent = record { passes = λ s. (tt, s, refl, refl) };
}

pub issued :
    (st : Statement)
    → Issued st
    → Simulates (λ (s : Contents). s) (answer st st.uses) ((reference strict).execute st)
issued _ (abi_selected account) = record { agrees = λ s. refl }
issued _ (abi_stored account json) = record { agrees = λ s. refl }
issued _ (account_named name) = record { agrees = λ s. refl }
issued _ (key_given account key permission) = record { agrees = λ s. refl }
issued _ (vote_cast voter proxy producers) = record { agrees = λ s. refl }
issued _ (proposed proposer proposal_name requested) = record { agrees = λ s. refl }
issued _ (proposal_ended proposer proposal_name) = record { agrees = λ s. refl }
issued _ (asset_created supply issuer owner) = record { agrees = λ s. refl }
issued _ (row_inserted action time json json_auth id arg) = record { agrees = λ s. refl }

abbrev pub server_laws : ServerLaws (driver server of_db_blocks) strict
server_laws = record { view = λ s. s; answers = issued; pool = silent_pool of_db_blocks }

lists_pending :
    (account : String) (s : Contents)
    → (q : Reply) × (t : Contents) × (answer (proposals_like account) [] s ≡ (ok q, t))
      × (q.rows ≡ pending_rows names account s)
unfolding at
lists_pending account s = (
  record { rows = pending_rows names account s; affected_rows = 0 },
  s,
  rw
      (at-append 7 112
        "select proposer, proposal_name from proposal where requested_approvals like '%" _ refl)
      refl,
  refl,
)

pub server_queries : QueryLaws (driver server of_sql_db) (λ s. s) names
server_queries = record {
  lists_assets =
      λ s. (record { rows = asset_rows s; affected_rows = 0 }, s, unfold at in refl, refl);
  pages_assets =
      λ start size s. (record { rows = asset_page start size s; affected_rows = 0 }, s, refl, refl);
  lists_proposals = λ account plain. lists_pending account;
  query_pool = silent_pool of_sql_db;
}
