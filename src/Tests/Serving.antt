-- ===== src/Tests/Serving.antt =====
-- The theorems on what the tables hold at concrete options, tables and runs.
use eos_sql_db_plugin.Base.{
  eq_iff, ◌≢◌, ℕ, String, List, ◌≡◌, refl, true, some, none, [], ◌∷◌, str_eq, if◌then◌else◌,
}
use eos_sql_db_plugin.Base.Int.{pos}
use eos_sql_db_plugin.Effect.{fc_exception, mysql_soci_error, throws, ok, ◌>>=◌, finally, on_throw}
use eos_sql_db_plugin.Sql.{Driver, driver, of_sql_db, of_db_blocks, attempt, text}
use eos_sql_db_plugin.Tables.Accounts
use eos_sql_db_plugin.Session.{
  open_from, soci_session_pool, reconnect_ptr, get_session, with_session,
}
use eos_sql_db_plugin.Database.{
  consume_transaction_trace, sql_database, sql_database_filtered, wipe, is_started,
}
use eos_sql_db_plugin.Plugin.{start_with, plugin_initialize}
use eos_sql_db_plugin.Plugin.Node.Accepted.{accepted}
use eos_sql_db_plugin.Plugin.Node.Tables.{
  plugin_initialize-tables, Run-IsRecorded, Run-at_most_once, Run-exactly_once,
}
use eos_sql_db_plugin.Plugin.Node.Served.{request-tables}
use eos_sql_db_plugin.Contents.{Contents, add_row}
use eos_sql_db_plugin.Contents.Reference.{command_of, lookup}
use mathlib.Core.Bool.{false≢true}
use eos_sql_db_plugin.Chain.{Action}
use eos_sql_db_plugin.Actions.AddData.{add_data, decode_data, select_abi}
use eos_sql_db_plugin.Contents.Decoded.{setabi-then-decode}
use eos_sql_db_plugin.Contents.AbiSets.{NoTraceSets}
use eos_sql_db_plugin.Consumer.Batch.{after_all}
use eos_sql_db_plugin.Contents.Rows.{IsRecorded}
use eos_sql_db_plugin.Database.Traversal.{selected, record_each}
use eos_sql_db_plugin.Contents.Once.{Sublist, keys_of, with_traces}
use eos_sql_db_plugin.Contents.Exactly.{AllTracesAccepted}
use eos_sql_db_plugin.Contents.Traces.{after_traces}
use eos_sql_db_plugin.Tests.Worlds.{plain, transfer, no_arg}
use eos_sql_db_plugin.Tests.Answering.{boost, options}
use eos_sql_db_plugin.Tests.Resting.{self, tc}
use eos_sql_db_plugin.Tests.Starting.{running}
use eos_sql_db_plugin.Tests.Signalling.{consumed, Run-consumed_all}
use eos_sql_db_plugin.Tests.Reading.{chain, reader, msig}
use eos_sql_db_plugin.Tests.Responding.{http, http_laws, json, json_laws}
use eos_sql_db_plugin.Http.{call_handler}
use eos_sql_db_plugin.Http.Calls.{get_all_tokens_call}
use eos_sql_db_plugin.Http.Requests.{all_tokens, reply}
use eos_sql_db_plugin.Http.Stored.{answer_from}
use eos_sql_db_plugin.Tests.Tabular.{server, strict, server_laws, server_queries, names}

-- One account with an ABI, one token, one proposal.
abbrev tables : Contents
tables = record {
  abi = λ name. if str_eq name "eosio.token" then some (text "abi") else none;
  keys = [];
  vote = λ voter. none;
  proposals =
      record { proposer = "alice"; proposal_name = "proposal_name"; requested_approvals = "bob" }
      ∷ [];
  assets =
      record {
        supply = pos 0;
        max_supply = pos 1000;
        symbol_precision = pos 4;
        symbol = "SYS";
        issuer = "issuer";
        contract_owner = "eosio.token";
      }
      ∷ [];
  actions = [];
}

abbrev no_tables : Contents
no_tables = record tables { abi = λ name. none }

-- What they hold when the two transfers of the trace are recorded.
abbrev tables_after : Contents
tables_after = after_traces plain strict ("transfer" ∷ []) (accepted 0 (tc ∷ [])) tables

enabled :
    plugin_initialize server plain boost (options (some "mysql://db")) (pos 0) true tables
    ≡ (ok running, tables)
unfolding plugin_initialize start_with sql_database sql_database_filtered soci_session_pool
    open_from wipe is_started with_session get_session reconnect_ptr finally on_throw attempt
    Accounts.exist Accounts.add_eosio command_of lookup ◌>>=◌
enabled = refl

plugin_initialize-tables_example : (consumed (driver server of_db_blocks) tables).db ≡ tables_after
plugin_initialize-tables_example =
    plugin_initialize-tables server plain boost (options (some "mysql://db")) strict server_laws
      (pos 0) true tables tables running self 5000 0 (consumed (driver server of_db_blocks) tables)
      enabled refl refl (Run-consumed_all (driver server of_db_blocks) tables) refl refl

Run-IsRecorded_example :
    IsRecorded ("transfer" ∷ []) (consumed (driver server of_db_blocks) tables).db
Run-IsRecorded_example =
    Run-IsRecorded (driver server of_db_blocks) plain strict server_laws self 5000 0 tables
      (consumed (driver server of_db_blocks) tables)
      (Run-consumed_all (driver server of_db_blocks) tables) (((refl, refl, refl), tt), tt)

not_empty : ◌≢◌ {A = String} "abi" ""
not_empty h = false≢true ((eq_iff "abi" "").1 h)

abbrev set_token_abi : Action
set_token_abi = record { account = "eosio"; name = "setabi"; authorization = []; bytes = 9 ∷ [] }

abbrev blocks_pool : Driver
blocks_pool = driver server of_db_blocks

-- A transfer is no setabi.
no_trace_sets : NoTraceSets strict "eosio.token" plain ("transfer" ∷ []) (tc ∷ [])
unfolding selected
no_trace_sets = ((refl, (refl, tt)), tt)

-- The ABI is set in one transaction, in which a transfer follows; another transaction with two
-- transfers comes next; then a transfer is read.
setabi-then-decode_example :
    (let recorded =
        (record_each blocks_pool plain self "t0" 0 (set_token_abi ∷ transfer ∷ []) no_tables).1 in
      let t = after_all (consume_transaction_trace blocks_pool plain self) recorded (tc ∷ []) in
      (add_data blocks_pool plain transfer t).0 ≡ ok "transfer")
setabi-then-decode_example =
    setabi-then-decode strict plain blocks_pool server_laws self set_token_abi transfer
      (transfer ∷ []) "t0" 0 (tc ∷ []) (record { account = "eosio.token"; abi = 1 ∷ [] }) "abi"
      "abi" "transfer" no_tables refl refl refl refl refl (refl, tt) no_trace_sets refl refl refl
      not_empty refl refl refl

-- Before the ABI is set, the transfer cannot be read.
unread_test : (add_data blocks_pool plain transfer no_tables).0 ≡ ok "{}"
unfolding add_data decode_data select_abi command_of lookup ◌>>=◌
unread_test = refl

Run-at_most_once_example :
    Sublist
      (keys_of (consumed (driver server of_db_blocks) tables).db)
      (with_traces ("transfer" ∷ []) (accepted 0 (tc ∷ [])) [])
Run-at_most_once_example =
    Run-at_most_once (driver server of_db_blocks) plain strict server_laws self 5000 0 tables
      (consumed (driver server of_db_blocks) tables)
      (Run-consumed_all (driver server of_db_blocks) tables) refl refl

traces_accepted : AllTracesAccepted plain strict ("transfer" ∷ []) (accepted 0 (tc ∷ [])) tables
unfolding selected
traces_accepted = (((no_arg, refl, refl), ((no_arg, refl, refl), tt)), tt)

-- A row without a text is refused, and such a text is no argument.
refused_test :
    (strict.refused (add_row [] "" []) tables ≡ some mysql_soci_error)
    × (plain.arg_of_json "" ≡ throws fc_exception)
refused_test = (refl, refl)

Run-exactly_once_example :
    keys_of (consumed (driver server of_db_blocks) tables).db
    ≡ with_traces ("transfer" ∷ []) (accepted 0 (tc ∷ [])) []
Run-exactly_once_example =
    Run-exactly_once (driver server of_db_blocks) plain strict server_laws self 5000 0 tables
      (consumed (driver server of_db_blocks) tables)
      (Run-consumed_all (driver server of_db_blocks) tables) traces_accepted refl refl

-- The two transfers of the trace, newest first.
recorded_test :
    with_traces ("transfer" ∷ []) (tc ∷ []) []
    ≡ (text "eosio.token" ∷ text "transfer" ∷ text "t1" ∷ [])
      ∷ (text "eosio.token" ∷ text "transfer" ∷ text "t1" ∷ [])
      ∷ []
unfolding selected
recorded_test = refl

request-tables_example :
    (let k = get_all_tokens_call (driver server of_sql_db) chain reader msig json 7 in
      (u : Contents) × (o : List (ℕ × String)) × (call_handler http "sql_db" k "alice"
          ((consumed (driver server of_db_blocks) tables).db, [])
        ≡ (ok tt, (u, o)))
      × (o
          ≡ reply json.to_string
              (λ e. (500, "get_all_tokens"))
              (answer_from chain reader msig json 7 names tables_after
                (all_tokens "alice" (pos 0) (pos 10)))
            ∷ []))
request-tables_example =
    request-tables server plain boost (options (some "mysql://db")) strict server_laws (pos 0) true
      tables tables running self 5000 0 (consumed (driver server of_db_blocks) tables) enabled refl
      refl (Run-consumed_all (driver server of_db_blocks) tables) refl refl names server_queries
      chain reader msig json json_laws 7 http http_laws (all_tokens "alice" (pos 0) (pos 10))
      "alice" "alice" [] refl refl (refl, refl, refl) tt
