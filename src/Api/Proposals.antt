-- ===== src/Api/Proposals.antt =====
-- get_pending_proposals, get_pending_proposal, get_my_proposals and make_resolver of
-- sql_db_plugin/sql_db_plugin.cpp. The state of a walk is the vector `result.proposals` with the
-- variable `pro`. How the rows of eosio.msig are read, and whether a transaction is authorized, is the
-- node's, so it is a parameter, `MsigReader`.
pub mod Rows
pub mod Walks
pub mod Callbacks
pub mod Answers
use Prim.Native.String.{len}
use eos_sql_db_plugin.Base.{
  ℕ, ◌/◌, String, Bool, true, false, Option, none, some, List, [], ◌∷◌, ◌++◌, str_eq, if◌then◌else◌,
}
use eos_sql_db_plugin.Effect.{
  Exception, Result, ok, throws, bind_result, Effect, pure, lift, ◌>>=◌, ◌>>◌, for_each,
}
use eos_sql_db_plugin.Sql.{Driver, Value, get_text}
use eos_sql_db_plugin.Session.{with_session}
use eos_sql_db_plugin.Actions.Statements.{proposals_like}
use eos_sql_db_plugin.Api.Chainbase.{Chainbase, get_abi, walk_key_value_table}
use eos_sql_db_plugin.Api.Resources.{RowReader, assign}

-- How check_authorization ends: it returns, throws an authorization_exception, or throws another.
pub data Checked : Type 0 where
  passed not_authorized : Checked
  failed : Exception → Checked

pub record MsigReader (db : Chainbase) (rd : RowReader db) : Type 1 where
  -- transaction and flat_set<permission_level>
  pub Trx : Type 0
  pub Permissions : Type 0
  -- abis.get_table_type(table)
  pub table_type : rd.Serializer → String → String
  -- v[field].as<name>(), fc::json::to_string(v[field]), v[field].as_string()
  pub name_of_field : rd.Variant → String → Result String
  pub json_of_field : rd.Variant → String → Result String
  pub string_of_field : rd.Variant → String → Result String
  -- fc::from_hex(hex, blob.data(), size): the blob after the call
  pub from_hex : String → (size : ℕ) → Result (List ℕ)
  -- fc::raw::unpack<transaction>(blob)
  pub unpack_transaction : List ℕ → Result Trx
  -- abi_serializer::to_variant(trx, out, resolver, abi_serializer_max_time), fc::json::to_string(out)
  pub to_variant : (resolver : String → Result rd.Serializer) → Trx → Result rd.Variant
  pub json_of_variant : rd.Variant → String
  -- v[field].as<flat_set<permission_level>>()
  pub permissions_of_field : rd.Variant → String → Result Permissions
  -- check_authorization(trx.actions, {}, provided, fc::seconds(trx.delay_sec), [](){}, false)
  pub check_authorization : Trx → Permissions → Checked
  -- name(s), the constructor that converts a std::string where it is compared with a name, with
  -- to_string(): it throws for a text that is no normalized name.
  pub name_of_text : String → Result String
  -- string_to_name(s), to_string()
  pub string_to_name : String → String

pub record Proposal : Type 0 where
  pub proposer : String
  pub proposal_name : String
  pub transaction : String
  pub requested_approvals : String
  pub provided_approvals : String
  pub status : ℕ

-- `result.proposals` and `pro`.
pub record Listing : Type 0 where
  pub proposals : List Proposal
  pub pro : Proposal

-- An assignment to `pro`.
abbrev pub assign_pro : (Proposal → Proposal) → Effect Listing (Unit {0})
assign_pro change = assign (λ s. record s { pro = change s.pro })

-- `result.proposals.emplace_back(pro)`
abbrev pub push_pro : Effect Listing (Unit {0})
push_pro = assign (λ s. record s { proposals = s.proposals ++ s.pro ∷ [] })

-- `proposal pro;`, whose status is what the memory holds.
abbrev pub new_proposal : (uninitialised : ℕ) → Proposal
new_proposal uninitialised = record {
  proposer = "";
  proposal_name = "";
  transaction = "";
  requested_approvals = "";
  provided_approvals = "";
  status = uninitialised;
}

-- `result.proposals` at the end, or what is thrown.
abbrev pub proposals_of : {A : Type 0} → Result A × Listing → Result (List Proposal)
proposals_of (ok a, s) = ok s.proposals
proposals_of (throws e, s) = throws e

module _ (db : Chainbase) (rd : RowReader db) (ms : MsigReader db rd) where
  open rd use {Serializer, Variant, serializer_of, binary_to_variant, text_of_field}
  open ms use {
    Trx, table_type, name_of_field, json_of_field, string_of_field, from_hex, unpack_transaction,
    to_variant, json_of_variant, permissions_of_field, check_authorization, name_of_text,
    string_to_name,
  }

  unfoldable pub make_resolver : (account : String) → Result Serializer
  make_resolver account = bind_result (get_abi db account) serializer_of

  -- The try with its one catch clause.
  abbrev pub set_status : Checked → Effect Listing (Unit {0})
  set_status passed = assign_pro (λ p. record p { status = 1 })
  set_status not_authorized = pure tt
  set_status (failed e) = lift (throws e)

  -- The callback of the inner walk, under the row `row` of the table approvals; `wanted` is the name
  -- that it compares with. get_pending_proposals compares the row's text with the name's text, and
  -- the others compare it with the name, for which the text is converted: `compared`.
  unfoldable pub on_proposal :
      Serializer
      → (compared : String → Result String) → (row : Variant) → (wanted : Listing → String) → List ℕ
      → Effect Listing Bool
  on_proposal abis compared row wanted value s =
      (do
        row2 ← lift (binary_to_variant abis (table_type abis "proposal") value)
        text ← lift (text_of_field row2 "proposal_name")
        found ← lift (compared text)
        if str_eq found (wanted s)
            then (do
              trx_hex ← lift (string_of_field row2 "packed_transaction")
              trx_blob ← lift (from_hex trx_hex (len trx_hex / 2))
              trx ← lift (unpack_transaction trx_blob)
              pretty_output ← lift (to_variant make_resolver trx)
              assign_pro (λ p. record p { transaction = json_of_variant pretty_output })
              assign_pro (λ p. record p { status = 0 })
              provided ← lift (permissions_of_field row "provided_approvals")
              set_status (check_authorization trx provided)
              push_pro
              pure false)
            else pure true)
        s

  -- The assignments to `pro` from a row of the table approvals.
  unfoldable pub fill_pro : (proposer : String) → (row : Variant) → Effect Listing (Unit {0})
  fill_pro proposer row = do
    assign_pro (λ p. record p { proposer = proposer })
    proposal_name ← lift (name_of_field row "proposal_name")
    assign_pro (λ p. record p { proposal_name = proposal_name })
    assign_pro (λ p. record p { transaction = "" })
    requested_approvals ← lift (json_of_field row "requested_approvals")
    assign_pro (λ p. record p { requested_approvals = requested_approvals })
    provided_approvals ← lift (json_of_field row "provided_approvals")
    assign_pro (λ p. record p { provided_approvals = provided_approvals })

  -- The inner walk.
  unfoldable pub walk_proposals :
      (proposer : String)
      → Serializer
      → (compared : String → Result String) → (row : Variant) → (wanted : Listing → String)
      → Effect Listing (Unit {0})
  walk_proposals proposer abis compared row wanted =
      walk_key_value_table db "eosio.msig" proposer "proposal"
        (on_proposal abis compared row wanted) (pure tt)

  -- The callbacks of the outer walks of get_pending_proposals, get_pending_proposal and
  -- get_my_proposals.
  unfoldable pub on_pending :
      Serializer → (proposer proposal_name : String) → List ℕ → Effect Listing Bool
  on_pending abis proposer proposal_name value = do
    row ← lift (binary_to_variant abis (table_type abis "approvals") value)
    found ← lift (text_of_field row "proposal_name")
    if str_eq found proposal_name
        then (do
          fill_pro proposer row
          walk_proposals proposer abis (λ text. ok text) row (λ s. proposal_name)
          pure false)
        else pure true

  unfoldable pub on_named :
      Serializer → (proposer proposal_name : String) → List ℕ → Effect Listing Bool
  on_named abis proposer proposal_name value = do
    row ← lift (binary_to_variant abis (table_type abis "approvals") value)
    found ← lift (name_of_field row "proposal_name")
    if str_eq proposal_name found
        then (do
          fill_pro proposer row
          walk_proposals proposer abis name_of_text row (λ s. s.pro.proposal_name)
          pure true)
        else pure true

  unfoldable pub on_mine : Serializer → (proposer : String) → List ℕ → Effect Listing Bool
  on_mine abis proposer value = do
    row ← lift (binary_to_variant abis (table_type abis "approvals") value)
    fill_pro proposer row
    walk_proposals proposer abis name_of_text row (λ s. s.pro.proposal_name)
    pure true

  unfoldable pub walk_approvals :
      (proposer : String) → (List ℕ → Effect Listing Bool) → Effect Listing (Unit {0})
  walk_approvals proposer f = walk_key_value_table db "eosio.msig" proposer "approvals" f (pure tt)

  -- abi_serializer abis( get_abi(db,N(eosio.msig)), ... )
  abbrev pub msig_serializer : Result Serializer
  msig_serializer = bind_result (get_abi db "eosio.msig") serializer_of

  unfoldable pub get_pending_proposal :
      (uninitialised : ℕ) → (proposer proposal_name : String) → Result (List Proposal)
  get_pending_proposal uninitialised proposer proposal_name = bind_result msig_serializer (λ abis.
      proposals_of (
        walk_approvals proposer (on_named abis proposer proposal_name)
          (record { proposals = []; pro = new_proposal uninitialised })))

  unfoldable pub get_my_proposals :
      (uninitialised : ℕ) → (account : String) → Result (List Proposal)
  get_my_proposals uninitialised account = bind_result msig_serializer (λ abis. proposals_of (
      walk_approvals account (on_mine abis account)
        (record { proposals = []; pro = new_proposal uninitialised })))

  -- The body of the loop of get_pending_proposals.
  unfoldable pub pending_row :
      (uninitialised : ℕ) → Serializer → List Value → Effect Listing (Unit {0})
  pending_row uninitialised abis it = do
    proposer ← lift (get_text 0 it)
    proposal_name ← lift (get_text 1 it)
    assign (λ s. record s { pro = new_proposal uninitialised })
    walk_approvals (string_to_name proposer)
        (on_pending abis (string_to_name proposer) (string_to_name proposal_name))

  unfoldable pub get_pending_proposals :
      (d : Driver) → (uninitialised : ℕ) → (account : String) → Effect d.Db (List Proposal)
  get_pending_proposals d uninitialised account = do
    proposals ← with_session d (d.execute (proposals_like account))
    lift (
        bind_result msig_serializer (λ abis. proposals_of (
          for_each proposals.rows (pending_row uninitialised abis)
            (record { proposals = []; pro = new_proposal uninitialised }))))
