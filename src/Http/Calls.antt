-- ===== src/Http/Calls.antt =====
-- The eight calls of read_only that plugin_startup of sql_db_api_plugin.cpp lists, and the list.
use Prim.Native.String.{◌++◌ as append}
use eos_sql_db_plugin.Base.{ℕ, String, Option, none, some, List, [], ◌∷◌, map}
use eos_sql_db_plugin.Effect.{bind_result, Effect, pure, lift, ◌>>=◌}
use eos_sql_db_plugin.Sql.{Driver}
use eos_sql_db_plugin.Plugin.{SqlDbPluginImpl, ReadOnly, get_read_only_api}
use eos_sql_db_plugin.Api.Chainbase.{Chainbase}
use eos_sql_db_plugin.Api.Tokens.{get_tokens, get_all_tokens, get_hold_tokens}
use eos_sql_db_plugin.Api.Resources.{RowReader, UserResource, Refund, get_userresource, get_refund}
use eos_sql_db_plugin.Api.Proposals.{
  MsigReader, get_pending_proposals, get_pending_proposal, get_my_proposals,
}
use eos_sql_db_plugin.Api.Params.{
  JsonLib, GetTokensParams, GetAllTokensParams, GetHoldTokensParams, GetUserresourceParams,
  GetRefundParams, GetPendingProposalsParams, GetPendingProposalParams, GetMyProposalsParams,
  as_get_tokens_params, as_get_all_tokens_params, as_get_hold_tokens_params,
  as_get_userresource_params, as_get_refund_params, as_get_pending_proposals_params,
  as_get_pending_proposal_params, as_get_my_proposals_params,
}
use eos_sql_db_plugin.Api.Results.{
  GetTokensResult, GetAllTokensResult, GetHoldTokensResult, GetPendingProposalsResult,
  GetPendingProposalResult, GetMyProposalsResult, of_get_tokens_result, of_get_all_tokens_result,
  of_get_hold_tokens_result, of_userresource, of_refund, of_get_pending_proposals_result,
  of_get_pending_proposal_result, of_get_my_proposals_result,
}
use eos_sql_db_plugin.Http.{HttpPlugin, Call, call_handler}

-- A url_handler: what it makes of the body of a request.
abbrev pub Handler : Type 0 → Type 0
Handler S = (body : String) → Effect S (Unit {0})

-- `std::string("/v1/" #api_name "/" #call_name)`
abbrev pub path_of : (api_name call_name : String) → String
path_of api_name call_name = append "/v1/" (append api_name (append "/" call_name))

-- CALL: an entry of an api_description.
abbrev pub entry_of :
    {S : Type 0} → (h : HttpPlugin) → (api_name : String) → Call S → String × Handler (S × h.Conn)
entry_of h api_name k = (path_of api_name k.call_name, call_handler h api_name k)

-- `result.tokens = ...; return result;`
abbrev pub returning : {S A B : Type 0} → (A → B) → Effect S A → Effect S B
returning wrap m = m >>= λ a. pure (wrap a)

-- `uninitialised` is what the memory holds of a variable that no call initialises.
module _ (d : Driver) (db : Chainbase) (rd : RowReader db) (ms : MsigReader db rd) (jl : JsonLib)
    (uninitialised : ℕ) where
  open jl use {from_string, to_string}

  abbrev pub get_tokens_call : Call d.Db
  get_tokens_call = record {
    Params = GetTokensParams;
    Answer = GetTokensResult;
    call_name = "get_tokens";
    params_of_json = λ body. bind_result (from_string body) (as_get_tokens_params jl);
    call = λ p. pure (record { tokens = get_tokens db p.account p.tokens });
    json_of_answer = λ r. to_string (of_get_tokens_result jl r);
  }

  abbrev pub get_all_tokens_call : Call d.Db
  get_all_tokens_call = record {
    Params = GetAllTokensParams;
    Answer = GetAllTokensResult;
    call_name = "get_all_tokens";
    params_of_json = λ body. bind_result (from_string body) (as_get_all_tokens_params jl);
    call = λ p.
        returning (λ v. record { tokens = v })
          (get_all_tokens db d p.account p.start_num p.page_size);
    json_of_answer = λ r. to_string (of_get_all_tokens_result jl r);
  }

  abbrev pub get_hold_tokens_call : Call d.Db
  get_hold_tokens_call = record {
    Params = GetHoldTokensParams;
    Answer = GetHoldTokensResult;
    call_name = "get_hold_tokens";
    params_of_json = λ body. bind_result (from_string body) (as_get_hold_tokens_params jl);
    call = λ p. returning (λ v. record { tokens = v }) (get_hold_tokens db d p.account);
    json_of_answer = λ r. to_string (of_get_hold_tokens_result jl r);
  }

  abbrev pub get_userresource_call : Call d.Db
  get_userresource_call = record {
    Params = GetUserresourceParams;
    Answer = UserResource;
    call_name = "get_userresource";
    params_of_json = λ body. bind_result (from_string body) (as_get_userresource_params jl);
    call = λ p. lift (get_userresource db rd p.account);
    json_of_answer = λ r. to_string (of_userresource jl r);
  }

  abbrev pub get_refund_call : Call d.Db
  get_refund_call = record {
    Params = GetRefundParams;
    Answer = Refund;
    call_name = "get_refund";
    params_of_json = λ body. bind_result (from_string body) (as_get_refund_params jl);
    call = λ p. lift (get_refund db rd p.account);
    json_of_answer = λ r. to_string (of_refund jl r);
  }

  abbrev pub get_pending_proposals_call : Call d.Db
  get_pending_proposals_call = record {
    Params = GetPendingProposalsParams;
    Answer = GetPendingProposalsResult;
    call_name = "get_pending_proposals";
    params_of_json = λ body. bind_result (from_string body) (as_get_pending_proposals_params jl);
    call = λ p.
        returning (λ v. record { proposals = v })
          (get_pending_proposals db rd ms d uninitialised p.account);
    json_of_answer = λ r. to_string (of_get_pending_proposals_result jl r);
  }

  abbrev pub get_pending_proposal_call : Call d.Db
  get_pending_proposal_call = record {
    Params = GetPendingProposalParams;
    Answer = GetPendingProposalResult;
    call_name = "get_pending_proposal";
    params_of_json = λ body. bind_result (from_string body) (as_get_pending_proposal_params jl);
    call = λ p.
        returning (λ v. record { proposals = v })
          (lift (get_pending_proposal db rd ms uninitialised p.proposer p.proposal_name));
    json_of_answer = λ r. to_string (of_get_pending_proposal_result jl r);
  }

  abbrev pub get_my_proposals_call : Call d.Db
  get_my_proposals_call = record {
    Params = GetMyProposalsParams;
    Answer = GetMyProposalsResult;
    call_name = "get_my_proposals";
    params_of_json = λ body. bind_result (from_string body) (as_get_my_proposals_params jl);
    call = λ p.
        returning (λ v. record { proposals = v })
          (lift (get_my_proposals db rd ms uninitialised p.account));
    json_of_answer = λ r. to_string (of_get_my_proposals_result jl r);
  }

  abbrev pub calls : List (Call d.Db)
  calls =
      get_tokens_call ∷ get_all_tokens_call ∷ get_hold_tokens_call ∷ get_userresource_call
      ∷ get_refund_call ∷ get_pending_proposals_call ∷ get_pending_proposal_call
      ∷ get_my_proposals_call ∷ []

  -- What plugin_startup gives to http_plugin::add_api; `none` where it uses a null pointer.
  abbrev pub handlers_of :
      (h : HttpPlugin) → Option ReadOnly → Option (List (String × Handler (d.Db × h.Conn)))
  handlers_of h none = none
  handlers_of h (some ro_api) = some (map (entry_of h "sql_db") calls)

  unfoldable pub plugin_startup :
      (h : HttpPlugin) → SqlDbPluginImpl → Option (List (String × Handler (d.Db × h.Conn)))
  plugin_startup h my = handlers_of h (get_read_only_api my)
