-- ===== src/Http.antt =====
-- The macro CALL and plugin_startup of sql_db_api_plugin (sql_db_api_plugin/sql_db_api_plugin.cpp):
-- the handler of a path /v1/sql_db/... and the list of the paths. The HTTP plugin and the JSON library
-- are the node's, so they are the parameters `HttpPlugin` and `JsonLib`.
pub mod Calls
pub mod Responses
pub mod Routes
pub mod Members
pub mod Requests
pub mod Conversions
pub mod Answered
pub mod Stored
pub mod Page
use eos_sql_db_plugin.Base.{ℕ, String, ◌≡◌, List, ◌∷◌, str_eq, if◌then◌else◌}
use eos_sql_db_plugin.Effect.{Exception, Result, ok, throws, Effect, lift, try_catch, ◌>>=◌}

-- `Conn` is what the callback writes to.
pub record HttpPlugin : Type 1 where
  pub Conn : Type 0
  -- url_response_callback
  pub cb : (code : ℕ) → (body : String) → Effect Conn (Unit {0})
  -- http_plugin::handle_exception(api_name, call_name, body, cb), called in a catch clause
  pub handle_exception : Exception → (api_name call_name body : String) → Effect Conn (Unit {0})

-- A call of read_only, by its parameters' type and its result's: the conversion of the JSON text, the
-- call, and fc::json::to_string of its result. `S` is what the call reads and writes.
pub record Call (S : Type 0) : Type 1 where
  pub Params : Type 0
  pub Answer : Type 0
  pub call_name : String
  pub params_of_json : String → Result Params
  pub call : Params → Effect S Answer
  pub json_of_answer : Answer → String

-- `if (body.empty()) body = "{}";`
abbrev pub body_or_object : String → String
body_or_object body = if str_eq body "" then "{}" else body

-- What works on one part of the state.
module _ {S T A : Type 0} where
  abbrev pub on_database : Effect S A → Effect (S × T) A
  on_database m (s, t) = let r = m s in (r.0, (r.1, t))

  abbrev pub on_connection : Effect T A → Effect (S × T) A
  on_connection m (s, t) = let r = m t in (r.0, (s, r.1))

unfoldable pub call_handler :
    {S : Type 0}
    → (h : HttpPlugin) → (api_name : String) → Call S
    → (body : String) → Effect (S × h.Conn) (Unit {0})
call_handler h api_name k body =
    try_catch
      (do
        params ← lift (k.params_of_json (body_or_object body))
        result ← on_database (k.call params)
        on_connection (h.cb 200 (k.json_of_answer result)))
      (λ e. on_connection (h.handle_exception e api_name k.call_name (body_or_object body)))

-- What the HTTP plugin documents: the callback sends one response, and handle_exception sends one that
-- it makes of the exception.
pub record HttpLaws (h : HttpPlugin) : Type 0 where
  pub sent : h.Conn → List (ℕ × String)
  pub error_of : Exception → (api_name call_name body : String) → ℕ × String
  pub cb_sends :
      (code : ℕ) (body : String) (s : h.Conn)
      → (t : h.Conn) × (h.cb code body s ≡ (ok tt, t)) × (sent t ≡ (code, body) ∷ sent s)
  pub handle_exception_sends :
      (e : Exception) (api_name call_name body : String) (s : h.Conn)
      → (t : h.Conn) × (h.handle_exception e api_name call_name body s ≡ (ok tt, t))
        × (sent t ≡ error_of e api_name call_name body ∷ sent s)
