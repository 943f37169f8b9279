-- ===== src/Tests/Recording.antt =====
-- The theorems on the tables, the session pool and the database at concrete actions.
use eos_sql_db_plugin.Base.{◌≡◌, refl, none, some, [], ◌∷◌, contains}
use eos_sql_db_plugin.Effect.{mysql_soci_error, ok, ◌>>=◌}
use eos_sql_db_plugin.Chain.{TransactionTrace, BlockState}
use eos_sql_db_plugin.Actions.AddData.{add_data, decode_data, select_abi}
use eos_sql_db_plugin.Actions.Add.{add}
use eos_sql_db_plugin.Actions.Answers.{answer_of, add_outcome}
use eos_sql_db_plugin.Database.{SqlDatabase, dfs_inline_traces, consume_block_state}
use eos_sql_db_plugin.Database.Traversal.{selected, record_each, dfs_inline_traces-eq-record_each}
use eos_sql_db_plugin.Database.Blocks.{
  consume_each, block_actions, consume_block_state-eq-consume_each,
}
use eos_sql_db_plugin.Tests.Worlds.{logging, failing, no_arg, transfer, issue, plain, traces}

-- Records the actions named transfer.
abbrev self : SqlDatabase
self = record {
  system_account = "eosio";
  m_block_num_start = 0;
  m_action_filter_on = "transfer" ∷ [];
  m_contract_filter_out = [];
}

abbrev tc : TransactionTrace
tc = record { id = "t1"; block_num = 5; block_time = 10; action_traces = traces }

abbrev block : BlockState
block = record {
  id = "b1";
  block_num = 5;
  previous = "b0";
  timestamp = 10;
  transaction_mroot = "";
  action_mroot = "";
  producer = "p";
  schedule_version = 0;
  confirmed = 0;
  trxs = [];
  new_producers = none;
  transactions = record { packed = none } ∷ record { packed = some (1 ∷ []) } ∷ [];
}

-- Of the traces the transfer below the issue is recorded, and the last one.
selected_test : selected ("transfer" ∷ []) traces ≡ transfer ∷ transfer ∷ []
unfolding selected
selected_test = refl

dfs_inline_traces-eq-record_each_example :
    dfs_inline_traces logging plain self traces "t1" 10
    ≡ record_each logging plain self "t1" 10 (selected ("transfer" ∷ []) traces)
dfs_inline_traces-eq-record_each_example =
    dfs_inline_traces-eq-record_each logging plain self traces "t1" 10

consume_block_state-eq-consume_each_example :
    consume_block_state logging plain self block
    ≡ consume_each logging plain self 10 (block_actions plain block.transactions)
consume_block_state-eq-consume_each_example =
    consume_block_state-eq-consume_each logging plain self block
      (tt, ((record { id = "trx"; actions = transfer ∷ issue ∷ [] }, refl), tt))

no_abi : (add_data (failing mysql_soci_error) plain transfer 0).0 ≡ ok "{}"
unfolding add_data decode_data select_abi ◌>>=◌
no_abi = refl

add_outcome_example :
    (add (failing mysql_soci_error) plain transfer "t1" 10 ("transfer" ∷ []) 0).0
    ≡ answer_of (contains "transfer" ("transfer" ∷ [])) (ok no_arg)
add_outcome_example =
    add_outcome (failing mysql_soci_error) plain transfer "t1" 10 ("transfer" ∷ []) 0 "{}" no_abi
