-- ===== src/Tests/Answering.antt =====
-- The theorems on the answers of the tables, on the start of the plugin and on the HTTP interface at
-- concrete inputs.
use eos_sql_db_plugin.Base.{
  ℕ, List, ◌⊎◌, ◌≢◌, String, ◌≡◌, refl, true, false, Option, none, some, [], ◌∷◌, str_eq,
  if◌then◌else◌,
}
use eos_sql_db_plugin.Base.Int.{ℤ, pos}
use eos_sql_db_plugin.Effect.{mysql_soci_error, ok, ◌>>=◌, finally, on_throw}
use eos_sql_db_plugin.Sql.{Driver, Reply, text, number}
use eos_sql_db_plugin.Chain.{TransactionTrace}
use eos_sql_db_plugin.Session.{with_session, get_session, reconnect_ptr}
use eos_sql_db_plugin.Tables.Accounts
use eos_sql_db_plugin.Tables.Blocks
use eos_sql_db_plugin.Tables.Answers.{exist_undefined, irreversible_set-true}
use eos_sql_db_plugin.Plugin.{
  Boost, SqlDbPluginImpl, VariablesMap, Given, set_program_options, plugin_initialize,
}
use eos_sql_db_plugin.Plugin.Start.{plugin_initialize-returned, configured, IsEnabled, IsDisabled}
use eos_sql_db_plugin.Actions.Statements.{assets_page}
use eos_sql_db_plugin.Api.Chainbase.{Chainbase}
use eos_sql_db_plugin.Api.Tokens.{TokenParams, get_tokens, get_all_tokens}
use eos_sql_db_plugin.Api.Found.{collect, requested_token, get_tokens-eq-collect}
use eos_sql_db_plugin.Api.Listed.{listed_token, get_all_tokens-eq-collect}
use eos_sql_db_plugin.Tests.Worlds.{failing, counting_both, plain, traces}

exist_undefined_example :
    (uninitialised : ℤ) × (Accounts.exist (failing mysql_soci_error) uninitialised "eosio" 0
      ≡ (ok true, 0))
exist_undefined_example = exist_undefined (failing mysql_soci_error) "eosio" 0 0 refl true

-- Updates no row, and counts none.
abbrev no_blocks : Driver
no_blocks = record {
  Db = ℕ;
  connect = λ i uri n. (ok tt, n);
  lease = λ n. (ok 0, n);
  give_back = λ pos n. n;
  mysql_ping = λ n. (ok 0, n);
  reconnect = λ n. (ok tt, n);
  execute = λ st n. (ok (record { rows = (number (pos 0) ∷ []) ∷ []; affected_rows = 0 }), n);
}

irreversible_set-true_example : (Blocks.irreversible_set no_blocks plain "b1" true 0).0 ≡ ok true
irreversible_set-true_example =
    irreversible_set-true no_blocks plain "b1" true 0 0 0
      (record { rows = (number (pos 0) ∷ []) ∷ []; affected_rows = 0 })
      (record { rows = (number (pos 0) ∷ []) ∷ []; affected_rows = 0 }) 0 refl refl refl

abbrev pub boost : Boost
boost = record { without_spaces = λ s. s; split_commas = λ s. s ∷ [] }

-- With a list of actions and maybe a URI.
abbrev pub given : Option String → Given
given uri = record {
  texts = λ name.
      if str_eq name "sql_db-uri"
      then uri
      else if str_eq name "sql_db-action-filter-on"
      then some "transfer"
      else none;
  numbers = λ name. none;
}

abbrev pub options : Option String → VariablesMap
options uri = record {
  action_filter_on = some "transfer";
  contract_filter_out = none;
  uri = uri;
  block_start = 0;
  queue_size = 5000;
  trace_start = "";
}

options_test : (uri : Option String) → set_program_options (given uri) ≡ options uri
unfolding set_program_options
options_test uri = refl

abbrev pub left_disabled : SqlDbPluginImpl
left_disabled = record {
  chain_plug = false;
  contract_filter_out = [];
  sql_db = none;
  handler = none;
  applied_transaction_connection = none;
}

pub empty_uri :
    plugin_initialize counting_both plain boost (options (some "")) (pos 0) true 0
    ≡ (ok left_disabled, 0)
unfolding plugin_initialize ◌>>=◌
empty_uri = refl

plugin_initialize-returned_example :
    (◌≡◌ {A = Option String} (some "") (some "") × IsDisabled left_disabled × (◌≡◌ {A = ℕ} 0 0))
    ⊎ ((uri : String) × (◌≡◌ {A = Option String} (some "") (some uri))
        × (uri ≢ "")
        × IsEnabled (configured counting_both plain boost (options (some ""))) 0 5000 left_disabled)
plugin_initialize-returned_example =
    plugin_initialize-returned counting_both plain boost (options (some "")) (pos 0) true 0 0
      left_disabled empty_uri

abbrev applied : TransactionTrace
applied = record { id = "t1"; block_num = 5; block_time = 10; action_traces = traces }

-- Every account is a token contract, and each holds one row of each token.
abbrev chainbase : Chainbase
chainbase = record {
  find_account = λ account. some (1 ∷ []);
  AbiDef = List ℕ;
  tables_of = λ abi. record { name = "accounts"; index_type = "i64" } ∷ [];
  to_abi = λ bytes. ok (bytes, true);
  find_table = λ code scope table. some 1;
  rows_of = λ t_id. (1 ∷ 2 ∷ []) ∷ [];
  sizeof_asset = 2;
  unpack_asset = λ bytes. ok (record { amount = pos 12; decimals = 1; symbol_name = "SYS" });
  symbol_valid = λ a. true;
  zero_asset =
      λ precision name. ok (record { amount = pos 0; decimals = precision; symbol_name = name });
  precision_of = λ a. 10;
  to_string = λ n. "12";
}

abbrev sys : TokenParams
sys = record { contract = "eosio.token"; symbol = "SYS"; precision = 1 }

get_tokens-eq-collect_example :
    get_tokens chainbase "alice" (sys ∷ []) ≡ collect (requested_token chainbase "alice") (sys ∷ [])
get_tokens-eq-collect_example = get_tokens-eq-collect chainbase "alice" (sys ∷ [])

-- The table assets with one token.
abbrev pub one_asset : Reply
one_asset = record {
  rows = (text "eosio.token" ∷ text "issuer" ∷ number (pos 1) ∷ text "SYS" ∷ []) ∷ [];
  affected_rows = 0;
}

abbrev pub assets : Driver
assets = record {
  Db = ℕ;
  connect = λ i uri n. (ok tt, n);
  lease = λ n. (ok 0, n);
  give_back = λ pos n. n;
  mysql_ping = λ n. (ok 0, n);
  reconnect = λ n. (ok tt, n);
  execute = λ st n. (ok one_asset, n);
}

pub page_read :
    with_session assets (assets.execute (assets_page (pos 0) (pos 10))) 0 ≡ (ok one_asset, 0)
unfolding with_session get_session reconnect_ptr finally on_throw ◌>>=◌
page_read = refl

get_all_tokens-eq-collect_example :
    get_all_tokens chainbase assets "alice" (pos 0) (pos 10) 0
    ≡ (ok (collect (listed_token chainbase "alice") one_asset.rows), 0)
get_all_tokens-eq-collect_example =
    get_all_tokens-eq-collect chainbase assets "alice" 0 0 one_asset (pos 0) (pos 10) refl refl
      page_read
