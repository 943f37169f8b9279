-- ===== src/Actions/Parse.antt =====
-- actions_table::parse_actions (sql_db_plugin/db/actions_table.cpp): the rows that an action adds to
-- or takes from the tables accounts, accounts_keys, votes, proposal and assets.
use eos_sql_db_plugin.Base.{String, Option, none, some, ◌||◌, not, str_eq, if◌then◌else◌}
use eos_sql_db_plugin.Base.Int.{is_positive}
use eos_sql_db_plugin.Effect.{Result, ok, throws, Effect, pure, lift, ◌>>=◌, ◌>>◌, for_each}
use eos_sql_db_plugin.Sql.{Driver, attempt}
use eos_sql_db_plugin.Chain.{Action, NewAccount, ChainLib}
use eos_sql_db_plugin.Actions.Statements.{
  account_upsert, key_insert, vote_upsert, proposal_upsert, proposal_delete, asset_replace,
}
use eos_sql_db_plugin.Actions.AddData.{select_abi, max_serialization_time, newaccount}

module _ (d : Driver) (c : ChainLib) where
  open d use {Db, execute}
  open c use {
    Abi, Variant, system_account_name, abi_of_json, eosio_contract_abi, set_abi, get_action_type,
    binary_to_variant, json_of_field, name_of_field, asset_of_field, as_newaccount,
  }

  -- The ABI to read the action by: that of the row, the one built in for the system account, none.
  unfoldable pub abi_of : Action → String → Result (Option Abi)
  abi_of action abi_def_account =
      if not (str_eq abi_def_account "")
      then elim (abi_of_json abi_def_account) [ ok abi ↦ ok (some abi) | throws e ↦ throws e ]
      else if str_eq action.account system_account_name
      then ok (some eosio_contract_abi)
      else ok none

  unfoldable pub record_newaccount : NewAccount → Effect Db (Unit {0})
  record_newaccount a = do
    execute (account_upsert a.name)
    for_each a.owner_keys (λ key. execute (key_insert a.name key "owner") >> pure tt)
    for_each a.active_keys (λ key. execute (key_insert a.name key "active") >> pure tt)

  unfoldable pub record_vote : Variant → Effect Db (Unit {0})
  record_vote abi_data = do
    voter ← lift (name_of_field abi_data "voter")
    proxy ← lift (name_of_field abi_data "proxy")
    producers ← lift (json_of_field abi_data "producers")
    attempt d (vote_upsert voter proxy producers)

  unfoldable pub record_proposal : Variant → Effect Db (Unit {0})
  record_proposal abi_data = do
    proposer ← lift (name_of_field abi_data "proposer")
    proposal_name ← lift (name_of_field abi_data "proposal_name")
    requested ← lift (json_of_field abi_data "requested")
    attempt d (proposal_upsert proposer proposal_name requested)

  unfoldable pub erase_proposal : Variant → Effect Db (Unit {0})
  erase_proposal abi_data = do
    proposer ← lift (name_of_field abi_data "proposer")
    proposal_name ← lift (name_of_field abi_data "proposal_name")
    attempt d (proposal_delete proposer proposal_name)

  unfoldable pub record_asset : Action → Variant → Effect Db (Unit {0})
  record_asset action abi_data = do
    issuer ← lift (name_of_field abi_data "issuer")
    maximum_supply ← lift (asset_of_field abi_data "maximum_supply")
    if str_eq issuer "" || not (is_positive maximum_supply.amount)
        then pure tt
        else attempt d (asset_replace maximum_supply issuer action.account)

  -- The branches on the account and the name of the action.
  unfoldable pub record_action : Action → Variant → Effect Db (Unit {0})
  record_action action abi_data =
      if str_eq action.account system_account_name
      then if str_eq action.name newaccount
        then lift (as_newaccount action.bytes) >>= record_newaccount
        else if str_eq action.name "voteproducer"
        then record_vote abi_data
        else pure tt
      else if str_eq action.account "eosio.msig"
      then if str_eq action.name "propose"
        then record_proposal abi_data
        else if str_eq action.name "cancel" || str_eq action.name "exec"
        then erase_proposal abi_data
        else pure tt
      else if str_eq action.name "create"
      then record_asset action abi_data
      else pure tt

  unfoldable pub parse_with : Action → Option Abi → Effect Db (Unit {0})
  parse_with action none = pure tt
  parse_with action (some abi) = do
    abis ← lift (set_abi abi max_serialization_time)
    abi_data ← lift (
        binary_to_variant abis (get_action_type abis action.name) action.bytes
          max_serialization_time)
    record_action action abi_data

  unfoldable pub parse_actions : Action → Effect Db (Unit {0})
  parse_actions action = do
    abi_def_account ← select_abi d c action.account
    found ← lift (abi_of action abi_def_account)
    parse_with action found
