-- ===== src/Http/Answered.antt =====
-- What a request gets for an answer, for each query.
use eos_sql_db_plugin.Base.{ℕ, String, ◌≡◌, refl, sym, ap, ◌∙◌, true, ◌∷◌}
use eos_sql_db_plugin.Effect.{
  Exception, Result, ok, throws, Effect, pure, lift, bind_result, ◌>>=◌, continued,
}
use eos_sql_db_plugin.Sql.{Driver}
use eos_sql_db_plugin.Api.Chainbase.{Chainbase}
use eos_sql_db_plugin.Api.Resources.{RowReader}
use eos_sql_db_plugin.Api.Proposals.{MsigReader}
use eos_sql_db_plugin.Api.Params.{
  JsonLib, as_get_tokens_params, as_get_all_tokens_params, as_get_hold_tokens_params,
  as_get_userresource_params, as_get_refund_params, as_get_pending_proposals_params,
  as_get_pending_proposal_params, as_get_my_proposals_params,
}
use eos_sql_db_plugin.Http.{HttpPlugin, HttpLaws, Call, call_handler, body_or_object}
use eos_sql_db_plugin.Http.Members.{JsonLaws}
use eos_sql_db_plugin.Http.Calls.{returning}
use eos_sql_db_plugin.Http.Responses.{answer_to, response_of, call_handler_responds}
use eos_sql_db_plugin.Http.Requests.{
  Request, tokens, all_tokens, hold_tokens, userresource, refund, pending_proposals, my_proposals,
  pending_proposal, mapped, reply, call_of, queried, GivenBy,
}
use eos_sql_db_plugin.Http.Conversions.{
  get_tokens_params_lem, get_all_tokens_params_lem, get_hold_tokens_params_lem,
  get_userresource_params_lem, get_refund_params_lem, get_pending_proposals_params_lem,
  get_pending_proposal_params_lem, get_my_proposals_params_lem,
}

module _ {A B C S : Type 0} (wrap : A → B) (f : B → C) where
  mapped-mapped : (r : Result A × S) → mapped f (mapped wrap r) ≡ mapped (λ a. f (wrap a)) r
  mapped-mapped (ok a, s) = refl
  mapped-mapped (throws e, s) = refl

  continued-mapped :
      (r : Result A × S) → mapped f (continued r (λ a. pure (wrap a))) ≡ mapped (λ a. f (wrap a)) r
  unfolding pure
  continued-mapped (ok a, s) = refl
  continued-mapped (throws e, s) = refl

  -- A call whose result is wrapped.
  returning-mapped :
      (m : Effect S A) (s : S) → mapped f (returning wrap m s) ≡ mapped (λ a. f (wrap a)) (m s)
  unfolding ◌>>=◌
  returning-mapped m s = continued-mapped (m s)

module _ (d : Driver) (db : Chainbase) (rd : RowReader db) (ms : MsigReader db rd) (jl : JsonLib)
    (uninitialised : ℕ) (laws : JsonLaws jl) (v : jl.Json) (o : laws.is_object v ≡ true)
    (text : String) (e : jl.from_string text ≡ ok v) (s : d.Db) where
  answered :
      (q : Request)
      → GivenBy d db rd ms jl uninitialised laws v q
      → mapped (call_of d db rd ms jl uninitialised q).json_of_answer (
          answer_to
            (call_of d db rd ms jl uninitialised q)
            ((call_of d db rd ms jl uninitialised q).params_of_json text)
            s)
        ≡ mapped jl.to_string (queried d db rd ms jl uninitialised q s)
  answered (tokens account ts) g =
      ap
        (λ r.
          mapped (call_of d db rd ms jl uninitialised (tokens account ts)).json_of_answer
            (answer_to (call_of d db rd ms jl uninitialised (tokens account ts)) r s))
        (ap (λ r. bind_result r (as_get_tokens_params jl)) e
          ∙ get_tokens_params_lem d db rd ms jl uninitialised laws v o account ts g)
      ∙ unfold pure in refl
  answered (all_tokens account start_num page_size) g =
      ap
        (λ r.
          mapped
            (call_of d db rd ms jl uninitialised
              (all_tokens account start_num page_size)).json_of_answer
            (answer_to
              (call_of d db rd ms jl uninitialised (all_tokens account start_num page_size)) r s))
        (ap (λ r. bind_result r (as_get_all_tokens_params jl)) e
          ∙ get_all_tokens_params_lem d db rd ms jl uninitialised laws v o account start_num
              page_size g)
      ∙ returning-mapped _ _ _ _
      ∙ sym (mapped-mapped _ _ _)
  answered (hold_tokens account) g =
      ap
        (λ r.
          mapped (call_of d db rd ms jl uninitialised (hold_tokens account)).json_of_answer
            (answer_to (call_of d db rd ms jl uninitialised (hold_tokens account)) r s))
        (ap (λ r. bind_result r (as_get_hold_tokens_params jl)) e
          ∙ get_hold_tokens_params_lem d db rd ms jl uninitialised laws v o account g)
      ∙ returning-mapped _ _ _ _
      ∙ sym (mapped-mapped _ _ _)
  answered (userresource account) g =
      ap
        (λ r.
          mapped (call_of d db rd ms jl uninitialised (userresource account)).json_of_answer
            (answer_to (call_of d db rd ms jl uninitialised (userresource account)) r s))
        (ap (λ r. bind_result r (as_get_userresource_params jl)) e
          ∙ get_userresource_params_lem d db rd ms jl uninitialised laws v o account g)
      ∙ unfold lift in sym (mapped-mapped _ _ _)
  answered (refund account) g =
      ap
        (λ r.
          mapped (call_of d db rd ms jl uninitialised (refund account)).json_of_answer
            (answer_to (call_of d db rd ms jl uninitialised (refund account)) r s))
        (ap (λ r. bind_result r (as_get_refund_params jl)) e
          ∙ get_refund_params_lem d db rd ms jl uninitialised laws v o account g)
      ∙ unfold lift in sym (mapped-mapped _ _ _)
  answered (pending_proposals account) g =
      ap
        (λ r.
          mapped (call_of d db rd ms jl uninitialised (pending_proposals account)).json_of_answer
            (answer_to (call_of d db rd ms jl uninitialised (pending_proposals account)) r s))
        (ap (λ r. bind_result r (as_get_pending_proposals_params jl)) e
          ∙ get_pending_proposals_params_lem d db rd ms jl uninitialised laws v o account g)
      ∙ returning-mapped _ _ _ _
      ∙ sym (mapped-mapped _ _ _)
  answered (my_proposals account) g =
      ap
        (λ r.
          mapped (call_of d db rd ms jl uninitialised (my_proposals account)).json_of_answer
            (answer_to (call_of d db rd ms jl uninitialised (my_proposals account)) r s))
        (ap (λ r. bind_result r (as_get_my_proposals_params jl)) e
          ∙ get_my_proposals_params_lem d db rd ms jl uninitialised laws v o account g)
      ∙ unfold lift in returning-mapped _ _ _ _ ∙ sym (mapped-mapped _ _ _)
  answered (pending_proposal proposer proposal_name) g =
      ap
        (λ r.
          mapped
            (call_of d db rd ms jl uninitialised
              (pending_proposal proposer proposal_name)).json_of_answer
            (answer_to
              (call_of d db rd ms jl uninitialised (pending_proposal proposer proposal_name)) r s))
        (ap (λ r. bind_result r (as_get_pending_proposal_params jl)) e
          ∙ get_pending_proposal_params_lem d db rd ms jl uninitialised laws v o proposer
              proposal_name g)
      ∙ unfold lift in returning-mapped _ _ _ _ ∙ sym (mapped-mapped _ _ _)

module _ {A S : Type 0} (text : A → String) where
  mapped_after : (r : Result A × S) → (mapped text r).1 ≡ r.1
  mapped_after (ok a, s) = refl
  mapped_after (throws e, s) = refl

  reply-mapped :
      (error : Exception → ℕ × String) (r : Result A × S)
      → reply text error r.0 ≡ reply (λ j. j) error (mapped text r).0
  reply-mapped error (ok a, s) = refl
  reply-mapped error (throws e, s) = refl

response_of-eq-reply :
    {S : Type 0} (k : Call S) (error : Exception → ℕ × String) (r : Result k.Answer)
    → response_of k error r ≡ reply k.json_of_answer error r
response_of-eq-reply k error (ok a) = refl
response_of-eq-reply k error (throws e) = refl

module _ (d : Driver) (db : Chainbase) (rd : RowReader db) (ms : MsigReader db rd) (jl : JsonLib)
    (laws : JsonLaws jl) (uninitialised : ℕ) (h : HttpPlugin) (http_laws : HttpLaws h) where
  open http_laws use {sent, error_of}

  -- With the HTTP plugin and the conversions of fc as they are documented, for each of the eight
  -- queries: a request whose body is an object that gives the parameters, where what is missing has
  -- the value of the structure's initialiser, gets exactly one response. It is 200 with the JSON of the
  -- result of the query where that returns, and else the response for its exception, and the database
  -- is left as the query leaves it.
  pub request_answered :
      (q : Request) (body : String) (v : jl.Json) (s : d.Db) (c : h.Conn)
      → jl.from_string (body_or_object body) ≡ ok v
      → laws.is_object v ≡ true
      → GivenBy d db rd ms jl uninitialised laws v q
      → (let r = queried d db rd ms jl uninitialised q s in
          let k = call_of d db rd ms jl uninitialised q in
          (t : h.Conn) × (call_handler h "sql_db" k body (s, c) ≡ (ok tt, (r.1, t)))
          × (sent t
              ≡ reply jl.to_string (λ e. error_of e "sql_db" k.call_name (body_or_object body)) r.0
                ∷ sent c))
  request_answered q body v s c e o g =
      let k = call_of d db rd ms jl uninitialised q in
      let (t, p, u) = call_handler_responds h http_laws "sql_db" k body s c in
      let same = answered d db rd ms jl uninitialised laws v o (body_or_object body) e s q g in
      let answer = answer_to k (k.params_of_json (body_or_object body)) s in
      let error = λ (x : Exception). error_of x "sql_db" k.call_name (body_or_object body) in
      let r = queried d db rd ms jl uninitialised q s in
      (
        t,
        p
            ∙ ap (λ (x : d.Db). (ok tt, (x, t)))
                (sym (mapped_after k.json_of_answer answer)
                  ∙ ap (λ (x : Result String × d.Db). x.1) same
                  ∙ mapped_after jl.to_string r),
        u
            ∙ ap (λ x. x ∷ sent c)
                (response_of-eq-reply k error answer.0
                  ∙ reply-mapped k.json_of_answer error answer
                  ∙ ap (λ (x : Result String × d.Db). reply (λ j. j) error x.0) same
                  ∙ sym (reply-mapped jl.to_string error r)),
      )
