-- ===== src/Http/Conversions.antt =====
-- The parameters that an object gives, for each query.
use eos_sql_db_plugin.Base.{ℕ, String, ◌≡◌, refl, ◌∙◌, true, List, []}
use eos_sql_db_plugin.Base.Int.{ℤ, pos}
use eos_sql_db_plugin.Effect.{ok}
use eos_sql_db_plugin.Sql.{Driver}
use eos_sql_db_plugin.Api.Chainbase.{Chainbase}
use eos_sql_db_plugin.Api.Tokens.{TokenParams}
use eos_sql_db_plugin.Api.Resources.{RowReader}
use eos_sql_db_plugin.Api.Proposals.{MsigReader}
use eos_sql_db_plugin.Api.Params.{
  JsonLib, as_token_params, as_get_tokens_params, as_get_all_tokens_params,
  as_get_hold_tokens_params, as_get_userresource_params, as_get_refund_params,
  as_get_pending_proposals_params, as_get_pending_proposal_params, as_get_my_proposals_params,
}
use eos_sql_db_plugin.Http.Members.{JsonLaws, read_members, read_member}
use eos_sql_db_plugin.Http.Requests.{tokens, all_tokens, pending_proposal, NameGiven, GivenBy}

module _ (d : Driver) (db : Chainbase) (rd : RowReader db) (ms : MsigReader db rd) (jl : JsonLib)
    (uninitialised : ℕ) (laws : JsonLaws jl) (v : jl.Json) (o : laws.is_object v ≡ true) where
  open jl use {as_vector}
  open laws use {found, from_members_reads}

  pub get_tokens_params_lem :
      (account : String) (ts : List TokenParams)
      → GivenBy d db rd ms jl uninitialised laws v (tokens account ts)
      → as_get_tokens_params jl v ≡ ok (record { account = account; tokens = ts })
  unfolding as_get_tokens_params
  get_tokens_params_lem account ts (a, t) =
      from_members_reads _ _ v o
      ∙ read_member "account" jl.as_name _ (found v) _ "" account _ refl a
      ∙ read_member "tokens" (as_vector (as_token_params jl)) _ (found v) _ [] ts _ refl t
      ∙ unfold read_members in refl

  pub get_all_tokens_params_lem :
      (account : String) (start_num page_size : ℤ)
      → GivenBy d db rd ms jl uninitialised laws v (all_tokens account start_num page_size)
      → as_get_all_tokens_params jl v
        ≡ ok (record { account = account; start_num = start_num; page_size = page_size })
  unfolding as_get_all_tokens_params
  get_all_tokens_params_lem account start_num page_size (a, n, s) =
      from_members_reads _ _ v o
      ∙ read_member "account" jl.as_name _ (found v) _ "" account _ refl a
      ∙ read_member "startNum" jl.as_int _ (found v) _ (pos 0) start_num _ refl n
      ∙ read_member "pageSize" jl.as_int _ (found v) _ (pos 10) page_size _ refl s
      ∙ unfold read_members in refl

  pub get_pending_proposal_params_lem :
      (proposer proposal_name : String)
      → GivenBy d db rd ms jl uninitialised laws v (pending_proposal proposer proposal_name)
      → as_get_pending_proposal_params jl v
        ≡ ok (record { proposer = proposer; proposal_name = proposal_name })
  unfolding as_get_pending_proposal_params
  get_pending_proposal_params_lem proposer proposal_name (p, n) =
      from_members_reads _ _ v o
      ∙ read_member "proposer" jl.as_name _ (found v) _ "" proposer _ refl p
      ∙ read_member "proposal_name" jl.as_name _ (found v) _ "" proposal_name _ refl n
      ∙ unfold read_members in refl

  pub get_hold_tokens_params_lem :
      (account : String)
      → NameGiven d db rd ms jl uninitialised laws v "account" account
      → as_get_hold_tokens_params jl v ≡ ok (record { account = account })
  unfolding as_get_hold_tokens_params
  get_hold_tokens_params_lem account a =
      from_members_reads _ _ v o
      ∙ read_member "account" jl.as_name _ (found v) _ "" account _ refl a
      ∙ unfold read_members in refl

  pub get_userresource_params_lem :
      (account : String)
      → NameGiven d db rd ms jl uninitialised laws v "account" account
      → as_get_userresource_params jl v ≡ ok (record { account = account })
  unfolding as_get_userresource_params
  get_userresource_params_lem account a =
      from_members_reads _ _ v o
      ∙ read_member "account" jl.as_name _ (found v) _ "" account _ refl a
      ∙ unfold read_members in refl

  pub get_refund_params_lem :
      (account : String)
      → NameGiven d db rd ms jl uninitialised laws v "account" account
      → as_get_refund_params jl v ≡ ok (record { account = account })
  unfolding as_get_refund_params
  get_refund_params_lem account a =
      from_members_reads _ _ v o
      ∙ read_member "account" jl.as_name _ (found v) _ "" account _ refl a
      ∙ unfold read_members in refl

  pub get_pending_proposals_params_lem :
      (account : String)
      → NameGiven d db rd ms jl uninitialised laws v "account" account
      → as_get_pending_proposals_params jl v ≡ ok (record { account = account })
  unfolding as_get_pending_proposals_params
  get_pending_proposals_params_lem account a =
      from_members_reads _ _ v o
      ∙ read_member "account" jl.as_name _ (found v) _ "" account _ refl a
      ∙ unfold read_members in refl

  pub get_my_proposals_params_lem :
      (account : String)
      → NameGiven d db rd ms jl uninitialised laws v "account" account
      → as_get_my_proposals_params jl v ≡ ok (record { account = account })
  unfolding as_get_my_proposals_params
  get_my_proposals_params_lem account a =
      from_members_reads _ _ v o
      ∙ read_member "account" jl.as_name _ (found v) _ "" account _ refl a
      ∙ unfold read_members in refl
