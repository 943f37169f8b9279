-- ===== src/Api/Proposals/Callbacks.antt =====
-- The callbacks of the walks over the table approvals of eosio.msig.
use mathlib.Core.List.{append-nil}
use eos_sql_db_plugin.Base.{
  ℕ, String, ◌≡◌, refl, sym, ap, ◌∙◌, fun_ext, Bool, true, false, List, [], str_eq, if◌then◌else◌,
}
use eos_sql_db_plugin.Effect.{Result, ok, throws, bind_result, Effect, pure, lift, ◌>>=◌, continued}
use eos_sql_db_plugin.Api.Chainbase.{Chainbase}
use eos_sql_db_plugin.Api.Resources.{RowReader}
use eos_sql_db_plugin.Api.Proposals.{
  MsigReader, Proposal, Listing, on_pending, on_named, on_mine, proposals_of,
}
use eos_sql_db_plugin.Api.Proposals.Rows.{bind_result_assoc, decoded, Reads}
use eos_sql_db_plugin.Api.Proposals.Walks.{read_row, read_row_lem, added, AddsRow}

module _ (db : Chainbase) (rd : RowReader db) (ms : MsigReader db rd) where
  module _ (abis : rd.Serializer) (proposer : String) where
    -- What a row of the table approvals adds to the answer of each query, and whether the walk goes
    -- on: in get_my_proposals its proposal; in get_pending_proposal that too, if it has the name; in
    -- get_pending_proposals so, and the walk ends with it.
    unfoldable pub read_mine : List ℕ → Result (List Proposal × Bool)
    read_mine value =
        bind_result (decoded db rd ms abis "approvals" value)
          (read_row db rd ms abis proposer ms.name_of_text (λ p. p.proposal_name) true)

    unfoldable pub read_named : (proposal_name : String) → List ℕ → Result (List Proposal × Bool)
    read_named proposal_name value = bind_result (decoded db rd ms abis "approvals" value) (λ row.
        bind_result (ms.name_of_field row "proposal_name") (λ found.
          if str_eq proposal_name found
          then read_row db rd ms abis proposer ms.name_of_text (λ p. p.proposal_name) true row
          else ok ([], true)))

    unfoldable pub read_pending : (proposal_name : String) → List ℕ → Result (List Proposal × Bool)
    read_pending proposal_name value = bind_result (decoded db rd ms abis "approvals" value) (λ row.
        bind_result (rd.text_of_field row "proposal_name") (λ found.
          if str_eq found proposal_name
          then read_row db rd ms abis proposer (λ text. ok text) (λ p. proposal_name) false row
          else ok ([], true)))

    pub lift_added :
        {X Y A : Type 0} (r : Result X) (g : X → Effect Listing Y) (k : Y → Effect Listing A)
        (s : Listing)
        → proposals_of (continued ((lift r >>= g) s) k)
          ≡ bind_result r (λ x. proposals_of (continued (g x s) k))
    unfolding ◌>>=◌
    lift_added (ok x) g k s = refl
    lift_added (throws e) g k s = refl

    pub mine-AddsRow : AddsRow db rd ms abis (on_mine db rd ms abis proposer) read_mine
    unfolding on_mine read_mine
    mine-AddsRow A k W reads value s =
        lift_added (decoded db rd ms abis "approvals" value) _ k s
        ∙ ap (bind_result (decoded db rd ms abis "approvals" value)) (
            fun_ext λ row.
              read_row_lem db rd ms abis proposer k W reads ms.name_of_text row
                (λ t. t.pro.proposal_name) (λ p. p.proposal_name) true s
                (λ t p status e. ap (λ (q : Proposal). q.proposal_name) e))
        ∙ sym (
            bind_result_assoc (decoded db rd ms abis "approvals" value) _
              (added db rd ms abis proposer k W reads s))

    skipped :
        {A : Type 0} (k : Bool → Effect Listing A)
        (W : Bool → List Proposal → Result (List Proposal)) (reads : Reads db rd ms abis k W)
        (s : Listing)
        → proposals_of (k true s) ≡ added db rd ms abis proposer k W reads s ([], true)
    skipped k W reads s = rw append-nil (reads true s)

    -- A row that is skipped unless a test holds.
    chosen :
        {A : Type 0} (k : Bool → Effect Listing A)
        (W : Bool → List Proposal → Result (List Proposal)) (reads : Reads db rd ms abis k W)
        (s : Listing) (b : Bool) (m : Effect Listing Bool) (r : Result (List Proposal × Bool))
        → proposals_of (continued (m s) k)
          ≡ bind_result r (added db rd ms abis proposer k W reads s)
        → proposals_of (continued ((if b then m else pure true) s) k)
          ≡ bind_result (if b then r else ok ([], true)) (added db rd ms abis proposer k W reads s)
    unfolding pure
    chosen k W reads s true m r h = h
    chosen k W reads s false m r h = skipped k W reads s

    tested :
        {A : Type 0} (k : Bool → Effect Listing A)
        (W : Bool → List Proposal → Result (List Proposal)) (reads : Reads db rd ms abis k W)
        (s : Listing) (decode : Result rd.Variant) (field : rd.Variant → Result String)
        (test : String → Bool) (m : rd.Variant → Effect Listing Bool)
        (r : rd.Variant → Result (List Proposal × Bool))
        → ((row : rd.Variant)
            → proposals_of (continued (m row s) k)
              ≡ bind_result (r row) (added db rd ms abis proposer k W reads s))
        → proposals_of (
            continued
              ((lift decode >>= λ row.
                  lift (field row) >>= λ found. if test found then m row else pure true)
                s)
              k)
          ≡ bind_result
              (bind_result decode (λ row.
                bind_result (field row) (λ found. if test found then r row else ok ([], true))))
              (added db rd ms abis proposer k W reads s)
    tested k W reads s decode field test m r h =
        lift_added decode _ k s
        ∙ ap (bind_result decode) (
            fun_ext λ row.
              lift_added (field row) _ k s
              ∙ ap (bind_result (field row))
                  (fun_ext λ found. chosen k W reads s (test found) (m row) (r row) (h row))
              ∙ sym (bind_result_assoc (field row) _ (added db rd ms abis proposer k W reads s)))
        ∙ sym (bind_result_assoc decode _ (added db rd ms abis proposer k W reads s))

    pub named-AddsRow :
        (name : String)
        → AddsRow db rd ms abis (on_named db rd ms abis proposer name) (read_named name)
    unfolding on_named read_named
    named-AddsRow name A k W reads value s =
        tested k W reads s (decoded db rd ms abis "approvals" value)
          (λ row. ms.name_of_field row "proposal_name") (λ found. str_eq name found) _ _
          (λ row.
            read_row_lem db rd ms abis proposer k W reads ms.name_of_text row
              (λ t. t.pro.proposal_name) (λ p. p.proposal_name) true s
              (λ t p status e. ap (λ (q : Proposal). q.proposal_name) e))

    pub pending-AddsRow :
        (name : String)
        → AddsRow db rd ms abis (on_pending db rd ms abis proposer name) (read_pending name)
    unfolding on_pending read_pending
    pending-AddsRow name A k W reads value s =
        tested k W reads s (decoded db rd ms abis "approvals" value)
          (λ row. rd.text_of_field row "proposal_name") (λ found. str_eq found name) _ _
          (λ row.
            read_row_lem db rd ms abis proposer k W reads (λ text. ok text) row (λ t. name)
              (λ p. name) false s (λ t p status e. refl))
