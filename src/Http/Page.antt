-- ===== src/Http/Page.antt =====
-- A request for a page of the tokens, from its body to the rows of its response.
use eos_sql_db_plugin.Base.{ℕ, String, ◌≡◌, ap, subst, true, false, ◌∷◌}
use eos_sql_db_plugin.Base.Int.{ℤ, is_negative}
use eos_sql_db_plugin.Effect.{Result, ok}
use eos_sql_db_plugin.Sql.{Driver, Reply}
use eos_sql_db_plugin.Session.{with_session}
use eos_sql_db_plugin.Actions.Statements.{assets_page}
use eos_sql_db_plugin.Api.Chainbase.{Chainbase}
use eos_sql_db_plugin.Api.Found.{collect}
use eos_sql_db_plugin.Api.Listed.{listed_token, get_all_tokens-eq-collect}
use eos_sql_db_plugin.Api.Resources.{RowReader}
use eos_sql_db_plugin.Api.Proposals.{MsigReader}
use eos_sql_db_plugin.Api.Params.{JsonLib}
use eos_sql_db_plugin.Api.Results.{of_get_all_tokens_result}
use eos_sql_db_plugin.Http.{HttpPlugin, HttpLaws, call_handler, body_or_object}
use eos_sql_db_plugin.Http.Members.{JsonLaws}
use eos_sql_db_plugin.Http.Calls.{get_all_tokens_call}
use eos_sql_db_plugin.Http.Requests.{all_tokens, mapped, reply, GivenBy}
use eos_sql_db_plugin.Http.Answered.{request_answered}

module _ (d : Driver) (db : Chainbase) (rd : RowReader db) (ms : MsigReader db rd) (jl : JsonLib)
    (laws : JsonLaws jl) (uninitialised : ℕ) (h : HttpPlugin) (http_laws : HttpLaws h) where
  open http_laws use {sent, error_of}

  -- A request to get_all_tokens for a page that is not negative gets exactly one response, where the
  -- query on that page of assets under a session returns: 200 with the tokens that the rows of the
  -- page find, in order.
  pub get_all_tokens_answered :
      (body : String) (v : jl.Json) (account : String) (start_num page_size : ℤ) (s s' : d.Db)
      (c : h.Conn) (assets : Reply)
      → jl.from_string (body_or_object body) ≡ ok v
      → laws.is_object v ≡ true
      → GivenBy d db rd ms jl uninitialised laws v (all_tokens account start_num page_size)
      → is_negative start_num ≡ false
      → is_negative page_size ≡ false
      → with_session d (d.execute (assets_page start_num page_size)) s ≡ (ok assets, s')
      → (t : h.Conn) × (call_handler h "sql_db"
            (get_all_tokens_call d db rd ms jl uninitialised)
            body
            (s, c)
          ≡ (ok tt, (s', t)))
        × (sent t
            ≡ (
              200,
              jl.to_string (
                  of_get_all_tokens_result jl
                    (record { tokens = collect (listed_token db account) assets.rows })),
            )
              ∷ sent c)
  get_all_tokens_answered body v account start_num page_size s s' c assets e o g n' p' q =
      let k = get_all_tokens_call d db rd ms jl uninitialised in
      subst
        (λ (r : Result jl.Json × d.Db).
          (t : h.Conn) × (call_handler h "sql_db" k body (s, c) ≡ (ok tt, (r.1, t)))
          × (sent t
              ≡ reply jl.to_string (λ x. error_of x "sql_db" k.call_name (body_or_object body)) r.0
                ∷ sent c))
        (ap (mapped (λ v. of_get_all_tokens_result jl (record { tokens = v })))
          (get_all_tokens-eq-collect db d account s s' assets start_num page_size n' p' q))
        (request_answered d db rd ms jl laws uninitialised h http_laws
          (all_tokens account start_num page_size) body v s c e o g)
