-- ===== src/Api/Results.antt =====
-- The results of the queries as JSON: the structures ..._result and their lists of FC_REFLECT of
-- sql_db_plugin/include/eosio/sql_db_plugin/sql_db_plugin.hpp, over fc's conversions.
use eos_sql_db_plugin.Base.{List, [], ◌∷◌, map}
use eos_sql_db_plugin.Api.Tokens.{Token}
use eos_sql_db_plugin.Api.Resources.{UserResource, Refund}
use eos_sql_db_plugin.Api.Proposals.{Proposal}
use eos_sql_db_plugin.Api.Params.{JsonLib}

pub record GetTokensResult : Type 0 where
  pub tokens : List Token

pub record GetAllTokensResult : Type 0 where
  pub tokens : List Token

pub record GetHoldTokensResult : Type 0 where
  pub tokens : List Token

pub record GetPendingProposalsResult : Type 0 where
  pub proposals : List Proposal

pub record GetPendingProposalResult : Type 0 where
  pub proposals : List Proposal

pub record GetMyProposalsResult : Type 0 where
  pub proposals : List Proposal

module _ (jl : JsonLib) where
  open jl use {Json, of_members, of_name, of_string, of_uint8, of_int64, of_asset, of_vector}

  unfoldable pub of_token : Token → Json
  of_token t = of_members (
      ("contract", of_name t.contract)
      ∷ ("quantity", of_string t.quantity)
      ∷ ("symbol", of_string t.symbol)
      ∷ ("precision", of_uint8 t.precision)
      ∷ [])

  unfoldable pub of_get_tokens_result : GetTokensResult → Json
  of_get_tokens_result r = of_members (("tokens", of_vector (map of_token r.tokens)) ∷ [])

  unfoldable pub of_get_all_tokens_result : GetAllTokensResult → Json
  of_get_all_tokens_result r = of_members (("tokens", of_vector (map of_token r.tokens)) ∷ [])

  unfoldable pub of_get_hold_tokens_result : GetHoldTokensResult → Json
  of_get_hold_tokens_result r = of_members (("tokens", of_vector (map of_token r.tokens)) ∷ [])

  unfoldable pub of_userresource : UserResource → Json
  of_userresource r = of_members (
      ("net_weight", of_asset r.net_weight)
      ∷ ("cpu_weight", of_asset r.cpu_weight)
      ∷ ("ram_bytes", of_int64 r.ram_bytes)
      ∷ [])

  unfoldable pub of_refund : Refund → Json
  of_refund r = of_members (
      ("request_time", of_string r.request_time)
      ∷ ("net_amount", of_asset r.net_amount)
      ∷ ("cpu_amount", of_asset r.cpu_amount)
      ∷ [])

  unfoldable pub of_proposal : Proposal → Json
  of_proposal p = of_members (
      ("proposer", of_name p.proposer)
      ∷ ("proposal_name", of_name p.proposal_name)
      ∷ ("transaction", of_string p.transaction)
      ∷ ("requested_approvals", of_string p.requested_approvals)
      ∷ ("provided_approvals", of_string p.provided_approvals)
      ∷ ("status", of_uint8 p.status)
      ∷ [])

  unfoldable pub of_get_pending_proposals_result : GetPendingProposalsResult → Json
  of_get_pending_proposals_result r =
      of_members (("proposals", of_vector (map of_proposal r.proposals)) ∷ [])

  unfoldable pub of_get_pending_proposal_result : GetPendingProposalResult → Json
  of_get_pending_proposal_result r =
      of_members (("proposals", of_vector (map of_proposal r.proposals)) ∷ [])

  unfoldable pub of_get_my_proposals_result : GetMyProposalsResult → Json
  of_get_my_proposals_result r =
      of_members (("proposals", of_vector (map of_proposal r.proposals)) ∷ [])
