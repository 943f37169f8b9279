-- ===== src/Actions/Statements.antt =====
-- The statements of actions_table (sql_db_plugin/db/actions_table.cpp), as the source binds them.
use Prim.Native.String.{◌++◌ as append}
use eos_sql_db_plugin.Base.{ℕ, String, [], ◌∷◌}
use eos_sql_db_plugin.Base.Int.{ℤ, pos}
use eos_sql_db_plugin.Sql.{Statement, text, number}
use eos_sql_db_plugin.Chain.{Action, Asset, SystemContractArg}

-- The columns `data` and `authorization` are JSON texts; `timestamp` counts seconds.
abbrev pub actions_insert :
    Action
    → (timestamp : ℕ) → (json json_auth transaction_id : String) → SystemContractArg
    → Statement
actions_insert action timestamp json json_auth transaction_id arg = record {
  query =
      "INSERT INTO actions(account, created_at, name, data, authorization, transaction_id, eosto, eosfrom, receiver, payer, newaccount, sellram_account) VALUES (:ac, FROM_UNIXTIME(:ca), :na, :da, :auth, :ti, :to, :form, :receiver, :payer, :newaccount, :sellram_account) ";
  uses =
      text action.account
      ∷ number (pos timestamp)
      ∷ text action.name
      ∷ text json
      ∷ text json_auth
      ∷ text transaction_id
      ∷ text arg.to
      ∷ text arg.from
      ∷ text arg.receiver
      ∷ text arg.payer
      ∷ text arg.name
      ∷ text arg.account
      ∷ [];
}

abbrev pub abi_select : String → Statement
abi_select account = record {
  query = "SELECT abi FROM accounts WHERE name = :name";
  uses = text account ∷ [];
}

abbrev pub abi_upsert : String → String → Statement
abi_upsert account json = record {
  query =
      "INSERT INTO accounts ( name, abi )  VALUES( :name, :abi ) on  DUPLICATE key UPDATE abi = :abi, updated_at =  NOW() ";
  uses = text account ∷ text json ∷ text json ∷ [];
}

abbrev pub account_upsert : String → Statement
account_upsert name = record {
  query = "INSERT INTO accounts (name) VALUES (:name) on  DUPLICATE key UPDATE name = :name";
  uses = text name ∷ text name ∷ [];
}

abbrev pub key_insert : (account key permission : String) → Statement
key_insert account key permission = record {
  query = "INSERT INTO accounts_keys(account, public_key, permission) VALUES (:ac, :ke, :pe) ";
  uses = text account ∷ text key ∷ text permission ∷ [];
}

abbrev pub vote_upsert : (voter proxy producers : String) → Statement
vote_upsert voter proxy producers = record {
  query =
      "INSERT INTO votes ( voter, proxy, producers )  VALUES( :vo, :pro, :pd ) on  DUPLICATE key UPDATE proxy = :pro, producers =  :pd ";
  uses = text voter ∷ text proxy ∷ text producers ∷ text proxy ∷ text producers ∷ [];
}

abbrev pub proposal_upsert : (proposer proposal_name requested : String) → Statement
proposal_upsert proposer proposal_name requested = record {
  query =
      "INSERT INTO proposal ( proposer, proposal_name, requested_approvals )  VALUES( :pro, :proname, :req ) on  DUPLICATE key UPDATE proposer = :pro, proposal_name =  :proname, requested_approvals =  :req ";
  uses =
      text proposer
      ∷ text proposal_name
      ∷ text requested
      ∷ text proposer
      ∷ text proposal_name
      ∷ text requested
      ∷ [];
}

abbrev pub proposal_delete : (proposer proposal_name : String) → Statement
proposal_delete proposer proposal_name = record {
  query = "DELETE FROM proposal WHERE proposer = :pro and proposal_name = :proname ";
  uses = text proposer ∷ text proposal_name ∷ [];
}

abbrev pub asset_replace : (maximum_supply : Asset) → (issuer owner : String) → Statement
asset_replace maximum_supply issuer owner = record {
  query =
      "REPLACE INTO assets(supply, max_supply, symbol_precision, symbol,  issuer, contract_owner) VALUES( :am, :mam, :pre, :sym, :issuer, :owner)";
  uses =
      number (pos 0)
      ∷ number maximum_supply.amount
      ∷ number (pos maximum_supply.decimals)
      ∷ text maximum_supply.symbol_name
      ∷ text issuer
      ∷ text owner
      ∷ [];
}

-- Of get_assets with a page, and without one.
abbrev pub assets_page : (start_num page_size : ℤ) → Statement
assets_page start_num page_size = record {
  query =
      "select contract_owner, issuer, symbol_precision, symbol from assets order by id limit :st,:pt ";
  uses = number start_num ∷ number page_size ∷ [];
}

abbrev pub assets_all : Statement
assets_all = record {
  query = "select contract_owner, issuer, symbol_precision, symbol from assets order by id ";
  uses = [];
}

-- Of get_proposal, whose query is put together from the account name and binds nothing.
abbrev pub actor_json : (account : String) → String
actor_json account = append "\"actor\":\"" (append account "\"")

abbrev pub proposals_like : (account : String) → Statement
proposals_like account = record {
  query =
      append "select proposer, proposal_name from proposal where requested_approvals like '%"
        (append (actor_json account) "%' order by id ");
  uses = [];
}
