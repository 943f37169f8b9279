-- ===== src/Contents/Reference.antt =====
-- The server of Contents as a Driver: it knows a statement of actions_table::add
-- (sql_db_plugin/db/actions_table.cpp) by its text. Its pool leases sessions at no cost.
use eos_sql_db_plugin.Base.{Option, none, some, String, List, [], ◌∷◌, str_eq, if◌then◌else◌}
use eos_sql_db_plugin.Effect.{ok}
use eos_sql_db_plugin.Sql.{Driver, Statement, Value, text, number}
use eos_sql_db_plugin.Contents.{
  Contents, write_abi, add_account, add_key, write_vote, write_proposal, drop_proposal, write_asset,
  add_row, Command, read_abi, write, Server, run,
}

-- The values bound to a statement, for each of the texts.
abbrev read_abi_of : List Value → Option Command
read_abi_of (text account ∷ []) = some (read_abi account)
read_abi_of _ = none

abbrev write_abi_of : List Value → Option Command
write_abi_of (text account ∷ text json ∷ text update ∷ []) =
    some (write (write_abi account json update))
write_abi_of _ = none

abbrev add_account_of : List Value → Option Command
add_account_of (text name ∷ text update ∷ []) = some (write (add_account name update))
add_account_of _ = none

abbrev add_key_of : List Value → Option Command
add_key_of (text account ∷ text key ∷ text permission ∷ []) =
    some (write (add_key account key permission))
add_key_of _ = none

abbrev write_vote_of : List Value → Option Command
write_vote_of
      (text voter ∷ text proxy ∷ text producers ∷ text update_proxy ∷ text update_producers ∷ []) =
    some (write (write_vote voter proxy producers update_proxy update_producers))
write_vote_of _ = none

abbrev write_proposal_of : List Value → Option Command
write_proposal_of
      (text proposer
        ∷ text proposal_name
        ∷ text requested
        ∷ text update_proposer
        ∷ text update_name
        ∷ text update_requested
        ∷ []) =
    some (
      write (
        write_proposal
          (record {
            proposer = proposer;
            proposal_name = proposal_name;
            requested_approvals = requested;
          })
          (record {
            proposer = update_proposer;
            proposal_name = update_name;
            requested_approvals = update_requested;
          })))
write_proposal_of _ = none

abbrev drop_proposal_of : List Value → Option Command
drop_proposal_of (text proposer ∷ text proposal_name ∷ []) =
    some (write (drop_proposal proposer proposal_name))
drop_proposal_of _ = none

abbrev write_asset_of : List Value → Option Command
write_asset_of
      (number supply
        ∷ number max_supply
        ∷ number precision
        ∷ text symbol
        ∷ text issuer
        ∷ text owner
        ∷ []) =
    some (
      write (
        write_asset (record {
          supply = supply;
          max_supply = max_supply;
          symbol_precision = precision;
          symbol = symbol;
          issuer = issuer;
          contract_owner = owner;
        })))
write_asset_of _ = none

abbrev add_row_of : List Value → Option Command
add_row_of (account ∷ time ∷ name ∷ text json ∷ behind) =
    some (write (add_row (account ∷ time ∷ name ∷ []) json behind))
add_row_of _ = none

-- The texts that it knows.
abbrev commands : List (String × (List Value → Option Command))
commands =
    ("SELECT abi FROM accounts WHERE name = :name", read_abi_of)
    ∷ (
      "INSERT INTO accounts ( name, abi )  VALUES( :name, :abi ) on  DUPLICATE key UPDATE abi = :abi, updated_at =  NOW() ",
      write_abi_of,
    )
    ∷ (
      "INSERT INTO accounts (name) VALUES (:name) on  DUPLICATE key UPDATE name = :name",
      add_account_of,
    )
    ∷ (
      "INSERT INTO accounts_keys(account, public_key, permission) VALUES (:ac, :ke, :pe) ",
      add_key_of,
    )
    ∷ (
      "INSERT INTO votes ( voter, proxy, producers )  VALUES( :vo, :pro, :pd ) on  DUPLICATE key UPDATE proxy = :pro, producers =  :pd ",
      write_vote_of,
    )
    ∷ (
      "INSERT INTO proposal ( proposer, proposal_name, requested_approvals )  VALUES( :pro, :proname, :req ) on  DUPLICATE key UPDATE proposer = :pro, proposal_name =  :proname, requested_approvals =  :req ",
      write_proposal_of,
    )
    ∷ ("DELETE FROM proposal WHERE proposer = :pro and proposal_name = :proname ", drop_proposal_of)
    ∷ (
      "REPLACE INTO assets(supply, max_supply, symbol_precision, symbol,  issuer, contract_owner) VALUES( :am, :mam, :pre, :sym, :issuer, :owner)",
      write_asset_of,
    )
    ∷ (
      "INSERT INTO actions(account, created_at, name, data, authorization, transaction_id, eosto, eosfrom, receiver, payer, newaccount, sellram_account) VALUES (:ac, FROM_UNIXTIME(:ca), :na, :da, :auth, :ti, :to, :form, :receiver, :payer, :newaccount, :sellram_account) ",
      add_row_of,
    )
    ∷ []

unfoldable pub lookup : Statement → List (String × (List Value → Option Command)) → Option Command
lookup st [] = none
lookup st ((known, read) ∷ rest) =
    let found = lookup st rest in if str_eq st.query known then read st.uses else found

unfoldable pub command_of : Statement → Option Command
unfolding lookup
command_of st = lookup st commands

abbrev pub reference : Server → Driver
reference sv = record {
  Db = Contents;
  connect = λ i uri s. (ok tt, s);
  lease = λ s. (ok 0, s);
  give_back = λ pos s. s;
  mysql_ping = λ s. (ok 0, s);
  reconnect = λ s. (ok tt, s);
  execute = λ st. run sv (command_of st);
}
