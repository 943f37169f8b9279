-- ===== src/Api/Params.antt =====
-- The parameters of the queries from JSON: the structures ..._params and their lists of FC_REFLECT of sql_db_plugin/include/eosio/sql_db_plugin/sql_db_plugin.hpp. The conversions are fc's,
-- so they are a parameter, `JsonLib`: a class with FC_REFLECT is converted by the names of its members.
use eos_sql_db_plugin.Base.{ℕ, String, List, [], ◌∷◌}
use eos_sql_db_plugin.Base.Int.{ℤ, pos}
use eos_sql_db_plugin.Effect.{Result, ok, bind_result}
use eos_sql_db_plugin.Chain.{Asset}
use eos_sql_db_plugin.Api.Tokens.{TokenParams}

pub record JsonLib : Type 1 where
  -- fc::variant
  pub Json : Type 0
  -- fc::json::from_string, fc::json::to_string
  pub from_string : String → Result Json
  pub to_string : Json → String
  -- v.as<A>() for a class A with FC_REFLECT: `members` has the name of each member and how it is set,
  -- and the value that A's initialisers make comes before the variant.
  pub from_members :
      {A : Type 0} → (members : List (String × (Json → A → Result A))) → A → Json → Result A
  -- v.as<name>(), v.as<string>(), v.as<uint8_t>(), v.as<int>(), v.as<vector<A>>()
  pub as_name : Json → Result String
  pub as_string : Json → Result String
  pub as_uint8 : Json → Result ℕ
  pub as_int : Json → Result ℤ
  pub as_vector : {A : Type 0} → (Json → Result A) → Json → Result (List A)
  -- The variant of a value of each type, where a name is given by its text.
  pub of_members : List (String × Json) → Json
  pub of_name : String → Json
  pub of_string : String → Json
  pub of_uint8 : ℕ → Json
  pub of_int64 : ℤ → Json
  pub of_asset : Asset → Json
  pub of_vector : List Json → Json

pub record GetTokensParams : Type 0 where
  pub account : String
  pub tokens : List TokenParams

pub record GetAllTokensParams : Type 0 where
  pub account : String
  pub start_num : ℤ
  pub page_size : ℤ

pub record GetHoldTokensParams : Type 0 where
  pub account : String

pub record GetUserresourceParams : Type 0 where
  pub account : String

pub record GetRefundParams : Type 0 where
  pub account : String

pub record GetPendingProposalsParams : Type 0 where
  pub account : String

pub record GetMyProposalsParams : Type 0 where
  pub account : String

pub record GetPendingProposalParams : Type 0 where
  pub proposer : String
  pub proposal_name : String

-- The values before a variant is read. The text of the name 0 is empty.
abbrev pub no_token_params : TokenParams
no_token_params = record { contract = ""; symbol = ""; precision = 255 }

abbrev pub no_get_tokens_params : GetTokensParams
no_get_tokens_params = record { account = ""; tokens = [] }

abbrev pub no_get_all_tokens_params : GetAllTokensParams
no_get_all_tokens_params = record { account = ""; start_num = pos 0; page_size = pos 10 }

abbrev pub no_get_pending_proposal_params : GetPendingProposalParams
no_get_pending_proposal_params = record { proposer = ""; proposal_name = "" }

-- A name in a list of FC_REFLECT, with the conversion and the assignment of the member.
abbrev pub member :
    {A B J : Type 0} → String → (J → Result B) → (B → A → A) → String × (J → A → Result A)
member name convert put = (name, λ v a. bind_result (convert v) (λ b. ok (put b a)))

module _ (jl : JsonLib) where
  open jl use {Json, from_members, as_name, as_string, as_uint8, as_int, as_vector}

  unfoldable pub as_token_params : Json → Result TokenParams
  as_token_params =
      from_members
        (member "contract" as_name (λ b a. record a { contract = b })
          ∷ member "symbol" as_string (λ b a. record a { symbol = b })
          ∷ member "precision" as_uint8 (λ b a. record a { precision = b })
          ∷ [])
        no_token_params

  unfoldable pub as_get_tokens_params : Json → Result GetTokensParams
  as_get_tokens_params =
      from_members
        (member "account" as_name (λ b a. record a { account = b })
          ∷ member "tokens" (as_vector as_token_params) (λ b a. record a { tokens = b })
          ∷ [])
        no_get_tokens_params

  unfoldable pub as_get_all_tokens_params : Json → Result GetAllTokensParams
  as_get_all_tokens_params =
      from_members
        (member "account" as_name (λ b a. record a { account = b })
          ∷ member "startNum" as_int (λ b a. record a { start_num = b })
          ∷ member "pageSize" as_int (λ b a. record a { page_size = b })
          ∷ [])
        no_get_all_tokens_params

  unfoldable pub as_get_hold_tokens_params : Json → Result GetHoldTokensParams
  as_get_hold_tokens_params =
      from_members (member "account" as_name (λ b a. record a { account = b }) ∷ [])
        (record { account = "" })

  unfoldable pub as_get_userresource_params : Json → Result GetUserresourceParams
  as_get_userresource_params =
      from_members (member "account" as_name (λ b a. record a { account = b }) ∷ [])
        (record { account = "" })

  unfoldable pub as_get_refund_params : Json → Result GetRefundParams
  as_get_refund_params =
      from_members (member "account" as_name (λ b a. record a { account = b }) ∷ [])
        (record { account = "" })

  unfoldable pub as_get_pending_proposals_params : Json → Result GetPendingProposalsParams
  as_get_pending_proposals_params =
      from_members (member "account" as_name (λ b a. record a { account = b }) ∷ [])
        (record { account = "" })

  unfoldable pub as_get_my_proposals_params : Json → Result GetMyProposalsParams
  as_get_my_proposals_params =
      from_members (member "account" as_name (λ b a. record a { account = b }) ∷ [])
        (record { account = "" })

  unfoldable pub as_get_pending_proposal_params : Json → Result GetPendingProposalParams
  as_get_pending_proposal_params =
      from_members
        (member "proposer" as_name (λ b a. record a { proposer = b })
          ∷ member "proposal_name" as_name (λ b a. record a { proposal_name = b })
          ∷ [])
        no_get_pending_proposal_params
