-- ===== src/Contents/Queries.antt =====
-- The statements of get_assets and get_proposal (sql_db_plugin/db/actions_table.cpp) on a server, by
-- what the tables hold.
use eos_sql_db_plugin.Base.{
  ℕ, zero, suc, String, ◌≡◌, ap, ◌∙◌, Bool, true, not, ◌&&◌, ◌||◌, ◌==◌, List, [], ◌∷◌, map,
  if◌then◌else◌,
}
use Prim.Native.Char.{code}
use Prim.Native.String.{◌++◌ as append}
use eos_sql_db_plugin.Base.Int.{pos}
use eos_sql_db_plugin.Effect.{ok}
use eos_sql_db_plugin.Sql.{Driver, Statement, Reply, Value, text, number}
use eos_sql_db_plugin.Session.{with_session}
use eos_sql_db_plugin.Contents.{Contents, AssetRow, ProposalRow}
use eos_sql_db_plugin.Contents.Laws.{SilentPool, with_session_returns}

-- contract_owner, issuer, symbol_precision, symbol
abbrev asset_columns : AssetRow → List Value
asset_columns row =
    text row.contract_owner ∷ text row.issuer ∷ number row.symbol_precision ∷ text row.symbol ∷ []

-- `limit start, size`
abbrev page : {A : Type 0} → (start size : ℕ) → List A → List A
page start size [] = []
page (suc start) size (row ∷ rows) = page start size rows
page zero zero (row ∷ rows) = []
page zero (suc size) (row ∷ rows) = row ∷ page zero size rows

-- proposer, proposal_name of the rows that a test holds of.
abbrev pub proposal_columns : (String → Bool) → List ProposalRow → List (List Value)
proposal_columns holds [] = []
proposal_columns holds (row ∷ rows) =
    let rest = proposal_columns holds rows in
    if holds row.requested_approvals
    then (text row.proposer ∷ text row.proposal_name ∷ []) ∷ rest
    else rest

-- The rows that the queries ask for: all of assets, a page of them, and the proposals whose requested
-- approvals mention the account.
abbrev pub asset_rows : Contents → List (List Value)
asset_rows v = map asset_columns v.assets

abbrev pub asset_page : (start size : ℕ) → Contents → List (List Value)
asset_page start size v = map asset_columns (page start size v.assets)

abbrev pub pending_rows :
    (mentions : String → String → Bool) → (account : String) → Contents → List (List Value)
pending_rows mentions account v = proposal_columns (λ t. mentions t account) v.proposals

-- The queries.
abbrev all_query : Statement
all_query = record {
  query = "select contract_owner, issuer, symbol_precision, symbol from assets order by id ";
  uses = [];
}

abbrev page_query : (start size : ℕ) → Statement
page_query start size = record {
  query =
      "select contract_owner, issuer, symbol_precision, symbol from assets order by id limit :st,:pt ";
  uses = number (pos start) ∷ number (pos size) ∷ [];
}

abbrev pending_query : (account : String) → Statement
pending_query account = record {
  query =
      append "select proposer, proposal_name from proposal where requested_approvals like '%"
        (append (append "\"actor\":\"" (append account "\"")) "%' order by id ");
  uses = [];
}

-- An account name that stands in a query as it is: no single quote, no backslash.
abbrev pub is_plain : String → Bool
is_plain String.[] = true
is_plain (String.◌∷◌ c s) = not (code c == 39 || code c == 92) && is_plain s

-- A query that returns these rows and leaves the tables alone.
abbrev pub Lists :
    (d : Driver) → (d.Db → Contents) → Statement → (Contents → List (List Value)) → Type 0
Lists d view st rows =
    (s : d.Db) → (q : Reply) × (t : d.Db) × (d.execute st s ≡ (ok q, t)) × (q.rows ≡ rows (view s))

-- A server that answers the queries as MySQL documents them: `order by id`, LIMIT for numbers that are
-- not negative, and LIKE: `mentions` is whether a text is LIKE the pattern that get_proposal makes of an
-- account, which has it as an actor between two wildcards.
pub record QueryLaws (d : Driver) (view : d.Db → Contents) (mentions : String → String → Bool)
    : Type 0 where
  pub lists_assets : Lists d view all_query asset_rows
  pub pages_assets : (start size : ℕ) → Lists d view (page_query start size) (asset_page start size)
  pub lists_proposals :
      (account : String)
      → is_plain account ≡ true
      → Lists d view (pending_query account) (pending_rows mentions account)
  pub query_pool : SilentPool d view

-- Under a session of its own a query returns the same rows.
pub Lists-with_session :
    (d : Driver) (view : d.Db → Contents) (st : Statement) (rows : Contents → List (List Value))
    → SilentPool d view
    → Lists d view st rows
    → (s : d.Db)
    → (q : Reply) × (t : d.Db) × (with_session d (d.execute st) s ≡ (ok q, t))
      × (q.rows ≡ rows (view s))
Lists-with_session d view st rows pool lists s =
    let (t, same, runs) = with_session_returns d view pool (d.execute st) s in
    let (q, u, e, r) = lists t in (q, (runs q u e).0, (runs q u e).1, r ∙ ap rows same)
