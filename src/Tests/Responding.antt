-- ===== src/Tests/Responding.antt =====
-- The theorems on the HTTP handlers at a concrete HTTP plugin and concrete conversions.
use eos_sql_db_plugin.Base.{
  ℕ, String, ◌≡◌, ◌↔◌, refl, true, false, suc, Option, none, some, List, [], ◌∷◌, ◌++◌, map,
  contains, str_eq, if◌then◌else◌,
}
use eos_sql_db_plugin.Base.Int.{pos}
use eos_sql_db_plugin.Effect.{fc_exception, ok, throws, try_catch, ◌>>=◌}
use eos_sql_db_plugin.Sql.{driver, of_sql_db}
use eos_sql_db_plugin.Plugin.{SqlDbPluginImpl, get_read_only_api}
use eos_sql_db_plugin.Api.Chainbase.{get_abi, get_table_type}
use eos_sql_db_plugin.Api.Tokens.{cursor_of}
use eos_sql_db_plugin.Api.Found.{collect, found_token, first_held}
use eos_sql_db_plugin.Api.Listed.{listed_token}
use eos_sql_db_plugin.Api.Params.{JsonLib}
use eos_sql_db_plugin.Api.Results.{of_token, of_get_all_tokens_result}
use eos_sql_db_plugin.Http.{HttpPlugin, HttpLaws, Call, call_handler}
use eos_sql_db_plugin.Http.Responses.{call_handler_responds}
use eos_sql_db_plugin.Http.Calls.{
  Handler, path_of, entry_of, calls, get_all_tokens_call, plugin_startup,
}
use eos_sql_db_plugin.Http.Routes.{handler_at, paths, plugin_startup-routes, plugin_startup_null}
use eos_sql_db_plugin.Http.Members.{read_members, JsonLaws}
use eos_sql_db_plugin.Http.Requests.{all_tokens, reply, queried}
use eos_sql_db_plugin.Http.Answered.{request_answered}
use eos_sql_db_plugin.Tests.Worlds.{counting_both, plain}
use eos_sql_db_plugin.Tests.Reading.{chain, reader, msig, storing}
use eos_sql_db_plugin.Tests.Answering.{boost, options, left_disabled, empty_uri, one_asset, assets}

-- Keeps the responses, newest first.
abbrev pub http : HttpPlugin
http = record {
  Conn = List (ℕ × String);
  cb = λ code body s. (ok tt, (code, body) ∷ s);
  handle_exception = λ e api_name call_name body s. (ok tt, (500, call_name) ∷ s);
}

abbrev pub http_laws : HttpLaws http
http_laws = record {
  sent = λ s. s;
  error_of = λ e api_name call_name body. (500, call_name);
  cb_sends = λ code body s. ((code, body) ∷ s, refl, refl);
  handle_exception_sends = λ e api_name call_name body s. ((500, call_name) ∷ s, refl, refl);
}

-- A call that converts nothing but the empty object, and counts.
abbrev no_params : Call ℕ
no_params = record {
  Params = Unit {0};
  Answer = String;
  call_name = "get_hold_tokens";
  params_of_json = λ body. if str_eq body "{}" then ok tt else throws fc_exception;
  call = λ p n. (ok "tokens", suc n);
  json_of_answer = λ a. a;
}

run-call_handler :
    call_handler http "sql_db" no_params "" (3, []) ≡ (ok tt, (4, (200, "tokens") ∷ []))
unfolding call_handler try_catch ◌>>=◌
run-call_handler = refl

call_handler_responds_example :
    (t : List (ℕ × String)) × (call_handler http "sql_db" no_params "x" (3, []) ≡ (ok tt, (3, t)))
    × (t ≡ (500, "get_hold_tokens") ∷ [])
call_handler_responds_example = call_handler_responds http http_laws "sql_db" no_params "x" 3 []

abbrev pub first_of : List String → String
first_of [] = ""
first_of (x ∷ xs) = x

abbrev pub first_member : List (String × String) → String
first_member [] = ""
first_member ((name, x) ∷ xs) = x

-- A text stands for an object with one member, the account of that name.
abbrev pub only_account : (v name : String) → Option String
only_account v name = if str_eq name "account" then some v else none

-- Writes the first member and the first element only.
abbrev pub json : JsonLib
json = record {
  Json = String;
  from_string = λ body. ok body;
  to_string = λ v. v;
  from_members = λ members a v. read_members (only_account v) members a;
  as_name = λ v. ok v;
  as_string = λ v. ok v;
  as_uint8 = λ v. throws fc_exception;
  as_int = λ v. throws fc_exception;
  as_vector = λ convert v. throws fc_exception;
  of_members = first_member;
  of_name = λ s. s;
  of_string = λ s. s;
  of_uint8 = λ n. "";
  of_int64 = λ n. "";
  of_asset = λ a. "";
  of_vector = first_of;
}

abbrev pub json_laws : JsonLaws json
json_laws = record {
  is_object = λ v. true;
  found = only_account;
  from_members_reads = λ members a v o. refl;
}

-- The call with no start and no page size reads the first ten.
request_answered_example :
    (let r = queried assets chain reader msig json 7 (all_tokens "alice" (pos 0) (pos 10)) 0 in
      (t : List (ℕ × String)) × (call_handler http "sql_db"
          (get_all_tokens_call assets chain reader msig json 7)
          "alice"
          (0, [])
        ≡ (ok tt, (r.1, t)))
      × (t ≡ reply json.to_string (λ e. (500, "get_all_tokens")) r.0 ∷ []))
request_answered_example =
    request_answered assets chain reader msig json json_laws 7 http http_laws
      (all_tokens "alice" (pos 0) (pos 10)) "alice" "alice" 0 [] refl refl (refl, refl, refl)

tokens_text :
    json.to_string (
      of_get_all_tokens_result json
        (record { tokens = collect (listed_token chain "alice") one_asset.rows }))
    ≡ "eosio.token"
unfolding of_get_all_tokens_result of_token listed_token found_token first_held cursor_of get_abi
    get_table_type
tokens_text = refl

-- A plugin that has found the chain plugin.
abbrev enabled : SqlDbPluginImpl
enabled = record {
  chain_plug = true;
  contract_filter_out = [];
  sql_db = none;
  handler = none;
  applied_transaction_connection = none;
}

abbrev table : List (String × Handler (ℕ × List (ℕ × String)))
table = map (entry_of http "sql_db") (calls storing chain reader msig json 7)

started : plugin_startup storing chain reader msig json 7 http enabled ≡ some table
unfolding plugin_startup get_read_only_api
started = refl

plugin_startup-routes_example :
    ((k : Call ℕ) (before after : List (Call ℕ))
      → calls storing chain reader msig json 7 ≡ before ++ k ∷ after
      → handler_at (path_of "sql_db" k.call_name) table ≡ some (call_handler http "sql_db" k))
    × ((p : String)
        → contains p (paths storing chain reader msig json 7 http) ≡ false
        → handler_at p table ≡ none)
plugin_startup-routes_example =
    plugin_startup-routes storing chain reader msig json 7 http enabled table started

plugin_startup_null_example :
    (plugin_startup (driver counting_both of_sql_db) chain reader msig json 7 http left_disabled
      ≡ none)
    ↔ (◌≡◌ {A = Option String} (some "") (some ""))
plugin_startup_null_example =
    plugin_startup_null counting_both chain reader msig json 7 http left_disabled plain boost
      (options (some "")) (pos 0) true 0 0 empty_uri
