-- ===== src/Contents/Actions.antt =====
-- What recording one action makes of the contents of the tables, said without calls, exceptions and
-- SQL: actions_table::add of sql_db_plugin/db/actions_table.cpp.
use eos_sql_db_plugin.Base.{
  ℕ, String, ◌&&◌, ◌||◌, not, Option, none, some, List, [], ◌∷◌, ◌++◌, map, is_empty, str_eq,
  if◌then◌else◌,
}
use eos_sql_db_plugin.Base.Int.{pos, is_positive}
use eos_sql_db_plugin.Effect.{Exception, fc_exception, Result, ok, throws, bind_result}
use eos_sql_db_plugin.Sql.{text, number}
use eos_sql_db_plugin.Chain.{Action, Asset, NewAccount, SetAbi, SystemContractArg, ChainLib}
use eos_sql_db_plugin.Actions.AddData.{max_serialization_time}
use eos_sql_db_plugin.Contents.{
  AssetRow, ProposalRow, Contents, Write, write_abi, add_account, add_key, write_vote,
  write_proposal, drop_proposal, write_asset, add_row, Server, abi_text, apply,
}

abbrev pub from_verdict :
    Server → Option Exception → Write → (Contents → Contents) → Contents → Contents
from_verdict sv none w following s = following (apply sv w s)
from_verdict sv (some e) w following s = s

-- Writes in a row, up to the first that the server refuses.
abbrev pub until_refused : Server → List Write → Contents → Contents
until_refused sv [] s = s
until_refused sv (w ∷ ws) s = from_verdict sv (sv.refused w s) w (until_refused sv ws) s

module _ (c : ChainLib) where
  open c use {
    Abi, Variant, system_account_name, sec_since_epoch, abi_of_json, json_of_abi, unpack_abi,
    eosio_contract_abi, set_abi, get_action_type, binary_to_variant, json_of_variant, json_of_field,
    name_of_field, asset_of_field, json_of_authorization, arg_of_json, as_newaccount, as_setabi,
  }

  abbrev pub read_by : Action → Abi → Result Variant
  read_by action abi = bind_result (set_abi abi max_serialization_time) (λ abis.
      binary_to_variant abis (get_action_type abis action.name) action.bytes max_serialization_time)

  abbrev json_or_empty : Result Variant → String
  json_or_empty (ok v) = json_of_variant v
  json_or_empty (throws e) = "{}"

  -- The data of an action as JSON, by the text of its account's ABI.
  abbrev pub decoded : Action → (abi : String) → String
  decoded action abi =
      if str_eq abi "" then "{}" else json_or_empty (bind_result (abi_of_json abi) (read_by action))

  abbrev pub set_data : Action → (abi account : String) → Result Abi → String × List Write
  set_data action abi account (ok new) =
      (json_of_abi new, write_abi account (json_of_abi new) (json_of_abi new) ∷ [])
  set_data action abi account (throws fc_exception) = (decoded action abi, [])
  set_data action abi account (throws _) = ("{}", [])

  abbrev pub setabi_of : Action → (abi : String) → Result SetAbi → String × List Write
  setabi_of action abi (ok s) = set_data action abi s.account (unpack_abi s.abi)
  setabi_of action abi (throws e) = ("{}", [])

  -- The JSON text of an action with what it writes to the accounts, by the text of its account's ABI.
  abbrev pub data_of : Action → (abi : String) → String × List Write
  data_of action abi =
      if is_empty action.bytes
      then ("{}", [])
      else if str_eq action.account system_account_name && str_eq action.name "setabi"
      then setabi_of action abi (as_setabi action.bytes)
      else (decoded action abi, [])

  abbrev pub row_of :
      Action → (id : String) → (time : ℕ) → (json : String) → SystemContractArg → Write
  row_of action id time json arg =
      add_row (text action.account ∷ number (pos (sec_since_epoch time)) ∷ text action.name ∷ [])
        json
        (text (json_of_authorization action.authorization)
          ∷ text id
          ∷ text arg.to
          ∷ text arg.from
          ∷ text arg.receiver
          ∷ text arg.payer
          ∷ text arg.name
          ∷ text arg.account
          ∷ [])

  abbrev pub newaccount_writes : Result NewAccount → List Write
  newaccount_writes (ok a) =
      add_account a.name a.name
      ∷ (map (λ key. add_key a.name key "owner") a.owner_keys
          ++ map (λ key. add_key a.name key "active") a.active_keys)
  newaccount_writes (throws e) = []

  abbrev pub vote_writes : (voter proxy producers : Result String) → List Write
  vote_writes (ok voter) (ok proxy) (ok producers) =
      write_vote voter proxy producers proxy producers ∷ []
  vote_writes _ _ _ = []

  abbrev pub propose_writes : (proposer proposal_name requested : Result String) → List Write
  propose_writes (ok proposer) (ok name) (ok requested) =
      let row : ProposalRow = record {
        proposer = proposer;
        proposal_name = name;
        requested_approvals = requested;
      } in
      write_proposal row row ∷ []
  propose_writes _ _ _ = []

  abbrev pub end_writes : (proposer proposal_name : Result String) → List Write
  end_writes (ok proposer) (ok name) = drop_proposal proposer name ∷ []
  end_writes _ _ = []

  abbrev pub asset_row : (owner issuer : String) → Asset → AssetRow
  asset_row owner issuer maximum_supply = record {
    supply = pos 0;
    max_supply = maximum_supply.amount;
    symbol_precision = pos maximum_supply.decimals;
    symbol = maximum_supply.symbol_name;
    issuer = issuer;
    contract_owner = owner;
  }

  abbrev pub create_writes : (owner : String) → Result String → Result Asset → List Write
  create_writes owner (ok issuer) (ok maximum_supply) =
      if str_eq issuer "" || not (is_positive maximum_supply.amount)
      then []
      else write_asset (asset_row owner issuer maximum_supply) ∷ []
  create_writes owner _ _ = []

  -- What an action writes to the tables other than actions, by its data.
  abbrev pub action_writes : Action → Variant → List Write
  action_writes action v =
      if str_eq action.account system_account_name
      then if str_eq action.name "newaccount"
        then newaccount_writes (as_newaccount action.bytes)
        else if str_eq action.name "voteproducer"
        then vote_writes (name_of_field v "voter") (name_of_field v "proxy")
            (json_of_field v "producers")
        else []
      else if str_eq action.account "eosio.msig"
      then if str_eq action.name "propose"
        then propose_writes (name_of_field v "proposer") (name_of_field v "proposal_name")
            (json_of_field v "requested")
        else if str_eq action.name "cancel" || str_eq action.name "exec"
        then end_writes (name_of_field v "proposer") (name_of_field v "proposal_name")
        else []
      else if str_eq action.name "create"
      then create_writes action.account (name_of_field v "issuer")
          (asset_of_field v "maximum_supply")
      else []

  abbrev pub variant_writes : Action → Result Variant → List Write
  variant_writes action (ok v) = action_writes action v
  variant_writes action (throws e) = []

  -- The same by the text of its account's ABI: the system account has an ABI without it.
  abbrev pub parsed : Action → (abi : String) → List Write
  parsed action abi =
      if not (str_eq abi "")
      then variant_writes action (bind_result (abi_of_json abi) (read_by action))
      else if str_eq action.account system_account_name
      then variant_writes action (read_by action eosio_contract_abi)
      else []

  module _ (sv : Server) where
    abbrev pub after_row :
        Action
        → (id : String) → (time : ℕ) → (json : String) → Result SystemContractArg
        → Contents
        → Result (Unit {0}) × Contents
    after_row action id time json (throws e) s = (throws e, s)
    after_row action id time json (ok arg) s =
        let t = until_refused sv (row_of action id time json arg ∷ []) s in
        (ok tt, until_refused sv (parsed action (abi_text action.account t)) t)

    -- The answer is an exception where the action's JSON text is no system_contract_arg.
    abbrev pub after_action :
        Action → (id : String) → (time : ℕ) → Contents → Result (Unit {0}) × Contents
    after_action action id time s =
        let (json, writes) = data_of action (abi_text action.account s) in
        after_row action id time json (arg_of_json json) (until_refused sv writes s)
