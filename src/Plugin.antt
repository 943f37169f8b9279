-- ===== src/Plugin.antt =====
-- sql_db_plugin_impl and sql_db_plugin (sql_db_plugin/sql_db_plugin.cpp): the options, the start, and
-- the handler of the node's signal applied_transaction. boost::replace_all and boost::split are a
-- parameter, and so is what app().find_plugin finds.
pub mod Start
pub mod Fresh
pub mod Pipeline
pub mod Node
use eos_sql_db_plugin.Base.{
  ℕ, zero, suc, String, Bool, true, false, not, Option, none, some, List, [], ◌∷◌, ◌==◌, contains,
  ltb, str_eq, if◌then◌else◌,
}
use eos_sql_db_plugin.Base.Int.{ℤ}
use eos_sql_db_plugin.Effect.{
  Result, ok, throws, fc_exception, std_exception, Effect, pure, lift, ◌>>=◌, ◌>>◌,
}
use eos_sql_db_plugin.Sql.{Pools, driver, of_sql_db, of_db_blocks}
use eos_sql_db_plugin.Chain.{
  Action, ActionTraces, end, trace, TransactionTrace, BlockState, ChainLib,
}
use eos_sql_db_plugin.Database.{SqlDatabase, sql_database, sql_database_filtered, wipe, is_started}
use eos_sql_db_plugin.Consumer.Channel.{Move, call}

-- boost::replace_all(s, " ", "") and boost::split(out, s, is_any_of(","))
pub record Boost : Type 0 where
  pub without_spaces : String → String
  pub split_commas : String → List String

-- The options as boost::program_options stores them: `none` is one that is not given.
pub record VariablesMap : Type 0 where
  pub action_filter_on : Option String
  pub contract_filter_out : Option String
  pub uri : Option String
  pub block_start : ℕ
  pub queue_size : ℕ
  pub trace_start : String

-- What the configuration gives, by the names of the options.
pub record Given : Type 0 where
  pub texts : (name : String) → Option String
  pub numbers : (name : String) → Option ℕ

abbrev value_or {ℓ} : {A : Type ℓ} → A → Option A → A
value_or default none = default
value_or default (some a) = a

abbrev pub block_start_option : String
block_start_option = "sql_db-block-start"

abbrev pub buffer_size_option : String
buffer_size_option = "sql_db-queue-size"

abbrev pub sql_db_uri_option : String
sql_db_uri_option = "sql_db-uri"

abbrev pub sql_db_action_filter_on : String
sql_db_action_filter_on = "sql_db-action-filter-on"

abbrev pub sql_db_contract_filter_out : String
sql_db_contract_filter_out = "sql_db-contract-filter-out"

abbrev pub trace_start_option : String
trace_start_option = "sql_db-trace-start"

-- The defaults of the options that set_program_options declares.
unfoldable pub set_program_options : Given → VariablesMap
set_program_options given = record {
  queue_size = value_or 5000 (given.numbers buffer_size_option);
  block_start = value_or 0 (given.numbers block_start_option);
  uri = given.texts sql_db_uri_option;
  action_filter_on = given.texts sql_db_action_filter_on;
  contract_filter_out = given.texts sql_db_contract_filter_out;
  trace_start = value_or "" (given.texts trace_start_option);
}

-- The members that plugin_initialize sets; the consumer by its database and its queue size, the
-- connection to the signal by the block number that its lambda holds, and `chain_plug` by whether it
-- points to the chain plugin.
pub record SqlDbPluginImpl : Type 0 where
  pub chain_plug : Bool
  pub contract_filter_out : List String
  pub sql_db : Option SqlDatabase
  pub handler : Option (SqlDatabase × ℕ)
  pub applied_transaction_connection : Option ℕ

-- options.at(name), for an option with no default.
abbrev pub option_at : Option String → Result String
option_at none = throws std_exception
option_at (some s) = ok s

-- `if (options.count(name))`, with the split into a list that is empty before.
abbrev pub split_option : Boost → Option String → List String
split_option boost none = []
split_option boost (some fo) = boost.split_commas (boost.without_spaces fo)

unfoldable pub filter_out_contract : SqlDbPluginImpl → String → Bool
filter_out_contract my contract = if contains contract my.contract_filter_out then true else false

-- `action_traces.size()==1 && action_traces[0].act.name.to_string() == "onblock"`
abbrev pub is_onblock : ActionTraces → Bool
is_onblock (trace receiver act inline_traces end) = str_eq act.name "onblock"
is_onblock _ = false

-- The calls of push_transaction_trace that sql_db_plugin_impl::applied_transaction makes.
unfoldable pub applied_transaction : TransactionTrace → List (Move TransactionTrace)
applied_transaction tc = if is_onblock tc.action_traces then [] else call tc ∷ []

-- The lambda that is connected to the signal.
unfoldable pub on_applied_transaction :
    (block_num_start : ℕ) → TransactionTrace → List (Move TransactionTrace)
unfolding applied_transaction
on_applied_transaction block_num_start tt' =
    if ltb tt'.block_num block_num_start then [] else applied_transaction tt'

-- The member sql_db of the class read_only; its member db is the chain's database.
pub record ReadOnly : Type 0 where
  pub sql_db : Option SqlDatabase

-- `none` is the use of a null pointer.
unfoldable pub get_read_only_api : SqlDbPluginImpl → Option ReadOnly
get_read_only_api my = if my.chain_plug then some (record { sql_db = my.sql_db }) else none

-- The calls of push_block_state that sql_db_plugin_impl::accepted_block makes.
abbrev pub accepted_block : BlockState → List (Move BlockState)
accepted_block bs = call bs ∷ []

module _ (ps : Pools) (c : ChainLib) where
  open ps use {Db}

  -- The part below the test of the URI. `chain_plug` says whether the chain plugin is found.
  unfoldable pub start_with :
      (contract_filter_out action_filter_on : List String) (uri_str : String)
      (block_num_start queue_size : ℕ) (uninitialised : ℤ) (chain_plug : Bool)
      → Effect Db SqlDbPluginImpl
  start_with contract_filter_out action_filter_on uri_str block_num_start queue_size uninitialised
        chain_plug =
      let blocks = driver ps of_db_blocks in
      do
        sql_db ← sql_database (driver ps of_sql_db) c uri_str block_num_start 1
        db_blocks ←
            sql_database_filtered blocks c uri_str block_num_start 5 action_filter_on
              contract_filter_out
        started ← is_started blocks c db_blocks uninitialised
        if started
            then pure tt
            else if block_num_start == 0
            then wipe blocks c db_blocks
            else pure tt
        if chain_plug then pure tt else lift (throws fc_exception)
        pure (record {
          chain_plug = chain_plug;
          contract_filter_out = contract_filter_out;
          sql_db = some sql_db;
          handler = some (db_blocks, queue_size);
          applied_transaction_connection = some block_num_start;
        })

  unfoldable pub plugin_initialize :
      Boost → VariablesMap → (uninitialised : ℤ) → (chain_plug : Bool) → Effect Db SqlDbPluginImpl
  plugin_initialize boost options uninitialised chain_plug = do
    let action_filter_on = split_option boost options.action_filter_on
    let contract_filter_out = split_option boost options.contract_filter_out
    uri_str ← lift (option_at options.uri)
    if str_eq uri_str ""
        then pure (record {
          chain_plug = false;
          contract_filter_out = contract_filter_out;
          sql_db = none;
          handler = none;
          applied_transaction_connection = none;
        })
        else start_with contract_filter_out action_filter_on uri_str options.block_start
            options.queue_size uninitialised chain_plug
