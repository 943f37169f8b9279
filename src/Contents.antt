-- ===== src/Contents.antt =====
-- What the tables of eos.sql hold that actions_table::add of sql_db_plugin/db/actions_table.cpp reads
-- and writes, and a server that executes its statements as MySQL documents them. MySQL is not part of
-- the repository: the server stands in for it where a theorem takes `ServerLaws`, and what stays open
-- of it is the parameter `Server`.
pub mod Reference
pub mod Simulation
pub mod Laws
pub mod AbiText
pub mod AbiSets
pub mod Decoded
pub mod Actions
pub mod Recording
pub mod Writes
pub mod Parsing
pub mod Traces
pub mod Rows
pub mod Invariant
pub mod Once
pub mod Exactly
pub mod Queries
use eos_sql_db_plugin.Base.{
  ℕ, String, Bool, ◌&&◌, Option, none, some, List, [], ◌∷◌, ◌++◌, str_eq, if◌then◌else◌,
}
use eos_sql_db_plugin.Base.Int.{ℤ}
use eos_sql_db_plugin.Effect.{Exception, std_exception, Result, ok, throws}
use eos_sql_db_plugin.Sql.{Reply, Value, text, null, first_text}

pub record AssetRow : Type 0 where
  pub supply : ℤ
  pub max_supply : ℤ
  pub symbol_precision : ℤ
  pub symbol : String
  pub issuer : String
  pub contract_owner : String

pub record ProposalRow : Type 0 where
  pub proposer : String
  pub proposal_name : String
  pub requested_approvals : String

-- accounts by the name and votes by the voter, which are their unique keys, `none` where there is no
-- row; a NULL in the column abi is `some null`. assets and proposal in the order of their ids.
-- accounts_keys and actions, newest row first.
pub record Contents : Type 0 where
  pub abi : String → Option Value
  pub keys : List (String × String × String)
  pub vote : String → Option (String × String)
  pub proposals : List ProposalRow
  pub assets : List AssetRow
  pub actions : List (List Value)

-- An upsert has the values of the INSERT and those of the UPDATE.
pub data Write : Type 0 where
  write_abi : (account json update : String) → Write
  add_account : (name update : String) → Write
  add_key : (account key permission : String) → Write
  write_vote : (voter proxy producers update_proxy update_producers : String) → Write
  write_proposal : (row update : ProposalRow) → Write
  drop_proposal : (proposer proposal_name : String) → Write
  write_asset : AssetRow → Write
  add_row : (before : List Value) (json : String) (behind : List Value) → Write

pub data Command : Type 0 where
  read_abi : (account : String) → Command
  write : Write → Command

-- `column` is the text that a column of type json gives for the one that was put there: MySQL
-- normalizes it. `refused` is the exception of a write that the server does not accept, as for a value
-- too long for its column or a text that is not JSON. `affected` is the count in a reply.
pub record Server : Type 0 where
  pub column : String → String
  pub refused : Write → Contents → Option Exception
  pub affected : Command → Contents → ℕ

abbrev pub abi_rows : Option Value → List (List Value)
abi_rows none = []
abi_rows (some v) = (v ∷ []) ∷ []

-- What select_abi makes of the answer.
abbrev pub abi_text : String → Contents → String
abi_text account s = first_text (abi_rows (s.abi account))

-- The table with one more row, which takes the place of the one with its key.
abbrev pub with_key : {A : Type 0} → String → A → (String → A) → String → A
with_key key v f k = if str_eq key k then v else f k

-- INSERT ... ON DUPLICATE KEY UPDATE, by the row that has the key.
abbrev pub on_duplicate : {A B : Type 0} → Option A → (insert update : B) → B
on_duplicate none insert update = insert
on_duplicate (some old) insert update = update

-- The one of a new account sets the key itself.
abbrev pub upserted_account :
    (name update : String) → Option Value → (String → Option Value) → String → Option Value
upserted_account name update none f = with_key name (some null) f
upserted_account name update (some v) f = with_key update (some v) (with_key name none f)

abbrev is_proposal : (proposer proposal_name : String) → ProposalRow → Bool
is_proposal proposer proposal_name row =
    str_eq row.proposer proposer && str_eq row.proposal_name proposal_name

-- For the key of the proposer with the name: a row with this key keeps its id.
abbrev pub upserted : (row update : ProposalRow) → List ProposalRow → List ProposalRow
upserted row update [] = row ∷ []
upserted row update (old ∷ rows) =
    let rest = upserted row update rows in
    if is_proposal row.proposer row.proposal_name old then update ∷ rows else old ∷ rest

abbrev pub deleted : (proposer proposal_name : String) → List ProposalRow → List ProposalRow
deleted proposer proposal_name [] = []
deleted proposer proposal_name (row ∷ rows) =
    let rest = deleted proposer proposal_name rows in
    if is_proposal proposer proposal_name row then rest else row ∷ rest

-- REPLACE for the key of the symbol with the contract: it deletes a row with this key, and the new row
-- has a new id.
abbrev pub without : (symbol contract_owner : String) → List AssetRow → List AssetRow
without symbol contract_owner [] = []
without symbol contract_owner (row ∷ rows) =
    let rest = without symbol contract_owner rows in
    if str_eq row.symbol symbol && str_eq row.contract_owner contract_owner
    then rest
    else row ∷ rest

abbrev pub replaced : AssetRow → List AssetRow → List AssetRow
replaced row rows = without row.symbol row.contract_owner rows ++ row ∷ []

module _ (sv : Server) where
  open sv use {column, refused, affected}

  -- What a write makes of the tables.
  abbrev pub apply : Write → Contents → Contents
  apply (write_abi account json update) s = record s {
    abi = with_key account (some (text (column (on_duplicate (s.abi account) json update)))) s.abi;
  }
  apply (add_account name update) s = record s {
    abi = upserted_account name update (s.abi name) s.abi;
  }
  apply (add_key account key permission) s = record s { keys = (account, key, permission) ∷ s.keys }
  apply (write_vote voter proxy producers update_proxy update_producers) s = record s {
    vote =
        with_key voter
          (some (
            on_duplicate (s.vote voter) (proxy, column producers)
              (update_proxy, column update_producers)))
          s.vote;
  }
  apply (write_proposal row update) s = record s { proposals = upserted row update s.proposals }
  apply (drop_proposal proposer proposal_name) s = record s {
    proposals = deleted proposer proposal_name s.proposals;
  }
  apply (write_asset row) s = record s { assets = replaced row s.assets }
  apply (add_row before json behind) s = record s {
    actions = (before ++ text (column json) ∷ behind) ∷ s.actions;
  }

  abbrev pub written : Option Exception → Write → Contents → Result Reply × Contents
  written none w s = (ok (record { rows = []; affected_rows = affected (write w) s }), apply w s)
  written (some e) w s = (throws e, s)

  abbrev pub run : Option Command → Contents → Result Reply × Contents
  run none s = (throws std_exception, s)
  run (some (read_abi account)) s = (
    ok (record { rows = abi_rows (s.abi account); affected_rows = affected (read_abi account) s }),
    s,
  )
  run (some (write w)) s = written (refused w s) w s
