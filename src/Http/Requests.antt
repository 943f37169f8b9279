-- ===== src/Http/Requests.antt =====
-- A request to a path of sql_db_api_plugin from its body to its response: what the object of the body
-- must have, and the query that it stands for.
use eos_sql_db_plugin.Base.{ℕ, String, ◌≡◌, List, []}
use eos_sql_db_plugin.Base.Int.{ℤ, pos}
use eos_sql_db_plugin.Effect.{Exception, Result, ok, throws}
use eos_sql_db_plugin.Sql.{Driver}
use eos_sql_db_plugin.Api.Chainbase.{Chainbase}
use eos_sql_db_plugin.Api.Tokens.{TokenParams, get_tokens, get_all_tokens, get_hold_tokens}
use eos_sql_db_plugin.Api.Resources.{RowReader, get_userresource, get_refund}
use eos_sql_db_plugin.Api.Proposals.{
  MsigReader, get_pending_proposals, get_pending_proposal, get_my_proposals,
}
use eos_sql_db_plugin.Api.Params.{JsonLib, as_token_params}
use eos_sql_db_plugin.Api.Results.{
  of_get_tokens_result, of_get_all_tokens_result, of_get_hold_tokens_result, of_userresource,
  of_refund, of_get_pending_proposals_result, of_get_pending_proposal_result,
  of_get_my_proposals_result,
}
use eos_sql_db_plugin.Http.{Call}
use eos_sql_db_plugin.Http.Members.{JsonLaws, given_or}
use eos_sql_db_plugin.Http.Calls.{
  get_tokens_call, get_all_tokens_call, get_hold_tokens_call, get_userresource_call,
  get_refund_call, get_pending_proposals_call, get_pending_proposal_call, get_my_proposals_call,
}

-- The queries with their parameters.
pub data Request : Type 0 where
  tokens : (account : String) → List TokenParams → Request
  all_tokens : (account : String) → (start_num page_size : ℤ) → Request
  hold_tokens userresource refund pending_proposals my_proposals : (account : String) → Request
  pending_proposal : (proposer proposal_name : String) → Request

-- What comes of a call whose result is converted.
abbrev pub mapped : {A B S : Type 0} → (A → B) → Result A × S → Result B × S
mapped f (ok a, s) = (ok (f a), s)
mapped f (throws e, s) = (throws e, s)

-- The response: 200 with the JSON text, or that of the exception.
abbrev pub reply : {J : Type 0} → (J → String) → (Exception → ℕ × String) → Result J → ℕ × String
reply text error (ok j) = (200, text j)
reply text error (throws e) = error e

module _ (d : Driver) (db : Chainbase) (rd : RowReader db) (ms : MsigReader db rd) (jl : JsonLib)
    (uninitialised : ℕ) where
  open jl use {Json, as_name, as_int, as_vector}

  abbrev pub call_of : Request → Call d.Db
  call_of (tokens account ts) = get_tokens_call d db rd ms jl uninitialised
  call_of (all_tokens account start_num page_size) = get_all_tokens_call d db rd ms jl uninitialised
  call_of (hold_tokens account) = get_hold_tokens_call d db rd ms jl uninitialised
  call_of (userresource account) = get_userresource_call d db rd ms jl uninitialised
  call_of (refund account) = get_refund_call d db rd ms jl uninitialised
  call_of (pending_proposals account) = get_pending_proposals_call d db rd ms jl uninitialised
  call_of (my_proposals account) = get_my_proposals_call d db rd ms jl uninitialised
  call_of (pending_proposal proposer proposal_name) =
      get_pending_proposal_call d db rd ms jl uninitialised

  -- The query, with the JSON of its result.
  abbrev pub queried : Request → d.Db → Result Json × d.Db
  queried (tokens account ts) s =
      (ok (of_get_tokens_result jl (record { tokens = get_tokens db account ts })), s)
  queried (all_tokens account start_num page_size) s =
      mapped (λ v. of_get_all_tokens_result jl (record { tokens = v }))
        (get_all_tokens db d account start_num page_size s)
  queried (hold_tokens account) s =
      mapped (λ v. of_get_hold_tokens_result jl (record { tokens = v }))
        (get_hold_tokens db d account s)
  queried (userresource account) s = mapped (of_userresource jl) (get_userresource db rd account, s)
  queried (refund account) s = mapped (of_refund jl) (get_refund db rd account, s)
  queried (pending_proposals account) s =
      mapped (λ v. of_get_pending_proposals_result jl (record { proposals = v }))
        (get_pending_proposals db rd ms d uninitialised account s)
  queried (my_proposals account) s =
      mapped (λ v. of_get_my_proposals_result jl (record { proposals = v }))
        (get_my_proposals db rd ms uninitialised account, s)
  queried (pending_proposal proposer proposal_name) s =
      mapped (λ v. of_get_pending_proposal_result jl (record { proposals = v }))
        (get_pending_proposal db rd ms uninitialised proposer proposal_name, s)

  module _ (laws : JsonLaws jl) (v : Json) where
    open laws use {is_object, found, from_members_reads}

    abbrev pub NameGiven : (member name : String) → Type 0
    NameGiven m name = given_or "" as_name (found v m) ≡ ok name

    -- The members of the object give the parameters; those that are missing have the values that
    -- initialise the structures.
    abbrev pub GivenBy : Request → Type 0
    GivenBy (tokens account ts) =
        (NameGiven "account" account)
        × (given_or [] (as_vector (as_token_params jl)) (found v "tokens") ≡ ok ts)
    GivenBy (all_tokens account start_num page_size) =
        (NameGiven "account" account)
        × (given_or (pos 0) as_int (found v "startNum") ≡ ok start_num)
        × (given_or (pos 10) as_int (found v "pageSize") ≡ ok page_size)
    GivenBy (hold_tokens account) = NameGiven "account" account
    GivenBy (userresource account) = NameGiven "account" account
    GivenBy (refund account) = NameGiven "account" account
    GivenBy (pending_proposals account) = NameGiven "account" account
    GivenBy (my_proposals account) = NameGiven "account" account
    GivenBy (pending_proposal proposer proposal_name) =
        (NameGiven "proposer" proposer) × (NameGiven "proposal_name" proposal_name)
