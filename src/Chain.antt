-- ===== src/Chain.antt =====
-- What the plugin reads of the node (eosio/chain) and of fc: the structures that reach it, and the
-- library calls it makes on them. None of that is part of this repository, so the calls are a
-- parameter, `ChainLib`. A chain::name and a transaction id stand as the text that to_string() and
-- str() give, a block_timestamp_type as its number of slots.
use eos_sql_db_plugin.Base.{ℕ, String, List, Option}
use eos_sql_db_plugin.Base.Int.{ℤ}
use eos_sql_db_plugin.Effect.{Result}

pub record PermissionLevel : Type 0 where
  pub actor : String
  pub permission : String

-- chain::action; `bytes` is its field `data`.
pub record Action : Type 0 where
  pub account : String
  pub name : String
  pub authorization : List PermissionLevel
  pub bytes : List ℕ

-- vector<action_trace>: the first trace, with its receipt.receiver and its inline traces, and the
-- traces after it.
pub data ActionTraces : Type 0 where
  end : ActionTraces
  trace :
      (receiver : String) (act : Action) (inline_traces : ActionTraces) (rest : ActionTraces)
      → ActionTraces

pub record TransactionTrace : Type 0 where
  pub id : String
  pub block_num : ℕ
  pub block_time : ℕ
  pub action_traces : ActionTraces

-- A transaction_receipt: the raw bytes of its packed_transaction, if it holds one.
pub record Receipt : Type 0 where
  pub packed : Option (List ℕ)

-- What is read of an unpacked chain::transaction; `id` is id().str().
pub record Transaction : Type 0 where
  pub id : String
  pub actions : List Action

-- What is read of a block_state and its signed block, with the digests as texts, and
-- new_producers->producers as JSON. `trxs` is the ids of its transactions.
pub record BlockState : Type 0 where
  pub id : String
  pub block_num : ℕ
  pub previous : String
  pub timestamp : ℕ
  pub transaction_mroot : String
  pub action_mroot : String
  pub producer : String
  pub schedule_version : ℕ
  pub confirmed : ℕ
  pub trxs : List String
  pub new_producers : Option String
  pub transactions : List Receipt

-- chain::asset, by its accessors.
pub record Asset : Type 0 where
  pub amount : ℤ
  pub decimals : ℕ
  pub symbol_name : String

-- chain::newaccount and chain::setabi, with the keys as texts.
pub record NewAccount : Type 0 where
  pub name : String
  pub owner_keys : List String
  pub active_keys : List String

pub record SetAbi : Type 0 where
  pub account : String
  pub abi : List ℕ

-- system_contract_arg of actions_table.hpp, its names as texts.
pub record SystemContractArg : Type 0 where
  pub to : String
  pub from : String
  pub receiver : String
  pub payer : String
  pub name : String
  pub account : String

pub record ChainLib : Type 1 where
  pub Abi : Type 0
  pub Serializer : Type 0
  pub Variant : Type 0
  -- chain::config::system_account_name
  pub system_account_name : String
  -- block_timestamp_type to fc::time_point, sec_since_epoch()
  pub sec_since_epoch : ℕ → ℕ
  -- fc::json::from_string(s).as<chain::abi_def>()
  pub abi_of_json : String → Result Abi
  -- fc::json::to_string(abi)
  pub json_of_abi : Abi → String
  -- fc::raw::unpack<chain::abi_def>(bytes)
  pub unpack_abi : List ℕ → Result Abi
  -- chain::eosio_contract_abi(abi_def())
  pub eosio_contract_abi : Abi
  -- abi_serializer::set_abi, get_action_type, binary_to_variant
  pub set_abi : Abi → ℕ → Result Serializer
  pub get_action_type : Serializer → String → String
  pub binary_to_variant : Serializer → String → List ℕ → ℕ → Result Variant
  -- fc::json::to_string(v), fc::json::to_string(v[field])
  pub json_of_variant : Variant → String
  pub json_of_field : Variant → String → Result String
  -- v[field].as<chain::name>().to_string(), v[field].as<chain::asset>()
  pub name_of_field : Variant → String → Result String
  pub asset_of_field : Variant → String → Result Asset
  -- fc::json::to_string(authorization)
  pub json_of_authorization : List PermissionLevel → String
  -- fc::json::from_string(s).as<system_contract_arg>()
  pub arg_of_json : String → Result SystemContractArg
  -- action.data_as<chain::newaccount>(), action.data_as<chain::setabi>()
  pub as_newaccount : List ℕ → Result NewAccount
  pub as_setabi : List ℕ → Result SetAbi
  -- fc::raw::unpack<chain::transaction>(raw)
  pub unpack_transaction : List ℕ → Result Transaction
