-- ===== src/Http/Stored.antt =====
-- The queries of sql_db_api_plugin/sql_db_api_plugin.cpp by what the tables assets and proposal hold.
use eos_sql_db_plugin.Base.{ℕ, String, ◌≡◌, refl, ap, ◌∙◌, Bool, true, List, []}
use eos_sql_db_plugin.Base.Int.{pos, negsuc}
use eos_sql_db_plugin.Effect.{Result, ok, throws, bind_result, pure}
use eos_sql_db_plugin.Sql.{Driver}
use eos_sql_db_plugin.Contents.{Contents}
use eos_sql_db_plugin.Contents.Queries.{asset_rows, asset_page, pending_rows, is_plain, QueryLaws}
use eos_sql_db_plugin.Api.Chainbase.{Chainbase}
use eos_sql_db_plugin.Api.Resources.{RowReader, get_userresource, get_refund}
use eos_sql_db_plugin.Api.Tokens.{Token, get_tokens, get_all_tokens}
use eos_sql_db_plugin.Api.Found.{collect}
use eos_sql_db_plugin.Api.Listed.{listed_token, held_token}
use eos_sql_db_plugin.Api.Proposals.{
  MsigReader, Proposal, msig_serializer, get_pending_proposal, get_my_proposals,
}
use eos_sql_db_plugin.Api.Proposals.Answers.{all_listed, read_stored}
use eos_sql_db_plugin.Api.Stored.{
  get_all_tokens_view, get_hold_tokens_view, get_pending_proposals_view,
}
use eos_sql_db_plugin.Api.Params.{JsonLib}
use eos_sql_db_plugin.Api.Results.{
  of_get_tokens_result, of_get_all_tokens_result, of_get_hold_tokens_result, of_userresource,
  of_refund, of_get_pending_proposals_result, of_get_pending_proposal_result,
  of_get_my_proposals_result,
}
use eos_sql_db_plugin.Http.Requests.{
  Request, tokens, all_tokens, hold_tokens, userresource, refund, pending_proposals, my_proposals,
  pending_proposal, mapped, queried,
}

-- An account name that stands in a query must do so as it is.
abbrev pub IsAskable : Request → Type 0
IsAskable (pending_proposals account) = is_plain account ≡ true
IsAskable _ = Unit {0}

abbrev converted : {A B : Type 0} → (A → B) → Result A → Result B
converted f r = bind_result r (λ a. ok (f a))

mapped-converted :
    {A B S : Type 0} (f : A → B) (r : Result A × S) → (mapped f r).0 ≡ converted f r.0
mapped-converted f (ok a, s) = refl
mapped-converted f (throws e, s) = refl

module _ (db : Chainbase) (rd : RowReader db) (ms : MsigReader db rd) (jl : JsonLib)
    (uninitialised : ℕ) (mentions : String → String → Bool) where
  open jl use {Json}

  abbrev json_of_all : List Token → Json
  json_of_all v = of_get_all_tokens_result jl (record { tokens = v })

  abbrev json_of_held : List Token → Json
  json_of_held v = of_get_hold_tokens_result jl (record { tokens = v })

  abbrev json_of_pending : List Proposal → Json
  json_of_pending v = of_get_pending_proposals_result jl (record { proposals = v })

  -- The JSON of the answer by what the tables hold; what reads the chain's database alone is as its
  -- query says.
  abbrev pub answer_from : Contents → Request → Result Json
  answer_from v (all_tokens account (pos start) (pos size)) =
      ok (json_of_all (collect (listed_token db account) (asset_page start size v)))
  answer_from v (all_tokens account (pos start) (negsuc size)) = ok (json_of_all [])
  answer_from v (all_tokens account (negsuc start) size) = ok (json_of_all [])
  answer_from v (hold_tokens account) =
      ok (json_of_held (collect (held_token db account) (asset_rows v)))
  answer_from v (pending_proposals account) = converted json_of_pending (
      bind_result (msig_serializer db rd ms)
        (λ abis. all_listed (read_stored db rd ms abis) (pending_rows mentions account v)))
  answer_from v (tokens account ts) =
      ok (of_get_tokens_result jl (record { tokens = get_tokens db account ts }))
  answer_from v (userresource account) =
      converted (of_userresource jl) (get_userresource db rd account)
  answer_from v (refund account) = converted (of_refund jl) (get_refund db rd account)
  answer_from v (my_proposals account) =
      converted (λ l. of_get_my_proposals_result jl (record { proposals = l }))
        (get_my_proposals db rd ms uninitialised account)
  answer_from v (pending_proposal proposer proposal_name) =
      converted (λ l. of_get_pending_proposal_result jl (record { proposals = l }))
        (get_pending_proposal db rd ms uninitialised proposer proposal_name)

  module _ (d : Driver) (view : d.Db → Contents) (queries : QueryLaws d view mentions) where
    -- The negative pages.
    no_page :
        (account : String) (s : d.Db) → (mapped json_of_all (pure [] s)).0 ≡ ok (json_of_all [])
    unfolding pure
    no_page account s = refl

    pub queried-answer_from :
        (q : Request) (s : d.Db)
        → IsAskable q
        → (queried d db rd ms jl uninitialised q s).0 ≡ answer_from (view s) q
    queried-answer_from (all_tokens account (pos start) (pos size)) s h =
        mapped-converted json_of_all (get_all_tokens db d account (pos start) (pos size) s)
        ∙ ap (converted json_of_all)
            (get_all_tokens_view d view mentions queries db s account start size)
    queried-answer_from (all_tokens account (pos start) (negsuc size)) s h =
        unfold get_all_tokens in no_page account s
    queried-answer_from (all_tokens account (negsuc start) size) s h =
        unfold get_all_tokens in no_page account s
    queried-answer_from (hold_tokens account) s h =
        mapped-converted json_of_held _
        ∙ ap (converted json_of_held) (get_hold_tokens_view d view mentions queries db s account)
    queried-answer_from (pending_proposals account) s h =
        mapped-converted json_of_pending _
        ∙ ap (converted json_of_pending)
            (get_pending_proposals_view d view mentions queries db s rd ms uninitialised account h)
    queried-answer_from (tokens account ts) s h = refl
    queried-answer_from (userresource account) s h = mapped-converted _ _
    queried-answer_from (refund account) s h = mapped-converted _ _
    queried-answer_from (my_proposals account) s h = mapped-converted _ _
    queried-answer_from (pending_proposal proposer proposal_name) s h = mapped-converted _ _
