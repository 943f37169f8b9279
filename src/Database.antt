-- ===== src/Database.antt =====
-- sql_database (sql_db_plugin/db/database.cpp and its header). The unique_ptrs to the tables are
-- created by the constructor and never change, so they are not part of the state; the pool's state
-- is that of the driver.
pub mod Traversal
pub mod Started
pub mod Balance
pub mod Fitting
pub mod Blocks
use eos_sql_db_plugin.Base.{
  ℕ, String, Bool, true, false, not, Option, none, some, List, [], ◌∷◌, ◌&&◌, str_eq, if◌then◌else◌,
}
use eos_sql_db_plugin.Base.Int.{ℤ}
use eos_sql_db_plugin.Effect.{Effect, pure, lift, ◌>>=◌, ◌>>◌, for_each}
use eos_sql_db_plugin.Sql.{Driver}
use eos_sql_db_plugin.Chain.{
  Action, ActionTraces, end, trace, TransactionTrace, Transaction, BlockState, ChainLib,
}
use eos_sql_db_plugin.Session.{soci_session_pool, with_session}
use eos_sql_db_plugin.Tables.Accounts
use eos_sql_db_plugin.Actions.Add.{add}

pub record SqlDatabase : Type 0 where
  pub system_account : String
  pub m_block_num_start : ℕ
  pub m_action_filter_on : List String
  pub m_contract_filter_out : List String

-- `actions.size()==1 && actions[0].name.to_string() == "onblock"`
abbrev pub is_onblock : List Action → Bool
is_onblock (action ∷ []) = str_eq action.name "onblock"
is_onblock _ = false

-- `inline_traces.size()==0`
abbrev pub no_traces : ActionTraces → Bool
no_traces end = true
no_traces (trace receiver act inline_traces rest) = false

module _ (d : Driver) (c : ChainLib) where
  open d use {Db}
  open c use {system_account_name, eosio_contract_abi, json_of_abi, unpack_transaction}

  -- The constructor with three arguments.
  unfoldable pub sql_database : String → (block_num_start pool_size : ℕ) → Effect Db SqlDatabase
  sql_database uri block_num_start pool_size = do
    soci_session_pool d pool_size uri
    pure (record {
      system_account = system_account_name;
      m_block_num_start = block_num_start;
      m_action_filter_on = [];
      m_contract_filter_out = [];
    })

  -- The constructor with five arguments.
  unfoldable pub sql_database_filtered :
      String
      → (block_num_start pool_size : ℕ) → (filter_on filter_out : List String)
      → Effect Db SqlDatabase
  sql_database_filtered uri block_num_start pool_size filter_on filter_out = do
    self ← sql_database uri block_num_start pool_size
    pure (record self { m_action_filter_on = filter_on; m_contract_filter_out = filter_out })

  module _ (self : SqlDatabase) where
    open self use {system_account, m_action_filter_on}

    unfoldable pub wipe : Effect Db (Unit {0})
    wipe = with_session d (Accounts.add_eosio d system_account (json_of_abi eosio_contract_abi))

    -- `uninitialised` is that of accounts_table::exist.
    unfoldable pub is_started : (uninitialised : ℤ) → Effect Db Bool
    is_started uninitialised = with_session d (Accounts.exist d uninitialised system_account)

    unfoldable pub consume_action :
        (transaction_id : String) → (block_time : ℕ) → Action → Effect Db (Unit {0})
    consume_action transaction_id block_time action =
        with_session d (add d c action transaction_id block_time m_action_filter_on) >> pure tt

    unfoldable pub consume_transaction : BlockState → Transaction → Effect Db (Unit {0})
    consume_transaction bs trx =
        if is_onblock trx.actions
        then pure tt
        else for_each trx.actions (consume_action trx.id bs.timestamp)

    -- The body of the loop, for what the receipt holds of a packed transaction.
    unfoldable pub consume_packed : BlockState → Option (List ℕ) → Effect Db (Unit {0})
    consume_packed bs none = pure tt
    consume_packed bs (some raw) = lift (unpack_transaction raw) >>= consume_transaction bs

    unfoldable pub consume_block_state : BlockState → Effect Db (Unit {0})
    consume_block_state bs = for_each bs.transactions (λ receipt. consume_packed bs receipt.packed)

    unfoldable pub dfs_inline_traces :
        ActionTraces → (transaction_id : String) → (block_time : ℕ) → Effect Db (Unit {0})
    dfs_inline_traces end transaction_id block_time = pure tt
    dfs_inline_traces (trace receiver act inline_traces rest) transaction_id block_time =
        let inline = dfs_inline_traces inline_traces transaction_id block_time in
        let following = dfs_inline_traces rest transaction_id block_time in
        (if str_eq receiver act.account
          then (add d c act transaction_id block_time m_action_filter_on >>= λ is_success.
              if not is_success && not (no_traces inline_traces) then inline else pure tt)
          else pure tt)
        >> following

    unfoldable pub consume_transaction_trace : TransactionTrace → Effect Db (Unit {0})
    consume_transaction_trace tc =
        with_session d (dfs_inline_traces tc.action_traces tc.id tc.block_time)
