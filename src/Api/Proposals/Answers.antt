-- ===== src/Api/Proposals/Answers.antt =====
-- get_my_proposals, get_pending_proposal and get_pending_proposals of read_only against what the rows
-- of the tables approvals and proposal of eosio.msig say.
use mathlib.Core.List.{append_assoc, append-nil}
use eos_sql_db_plugin.Base.{ℕ, String, ◌≡◌, refl, sym, ap, ◌∙◌, fun_ext, Bool, List, [], ◌∷◌, ◌++◌}
use eos_sql_db_plugin.Effect.{
  Result, ok, throws, bind_result, Effect, pure, lift, ◌>>=◌, for_each, continued,
}
use eos_sql_db_plugin.Sql.{Driver, Value, Reply, get_text}
use eos_sql_db_plugin.Session.{with_session}
use eos_sql_db_plugin.Actions.Statements.{proposals_like}
use eos_sql_db_plugin.Api.Chainbase.{Chainbase, walk_key_value_table}
use eos_sql_db_plugin.Api.Resources.{RowReader}
use eos_sql_db_plugin.Api.Proposals.{
  MsigReader, Proposal, Listing, walk_approvals, proposals_of, msig_serializer, new_proposal,
  pending_row, get_pending_proposal, get_my_proposals, get_pending_proposals,
}
use eos_sql_db_plugin.Api.Proposals.Rows.{bind_result_assoc, listed}
use eos_sql_db_plugin.Api.Proposals.Callbacks.{
  read_mine, read_named, read_pending, lift_added, mine-AddsRow, named-AddsRow, pending-AddsRow,
}
use eos_sql_db_plugin.Api.Proposals.Walks.{walk_table-rows, msig_rows, AddsRow, walk_rows-listed}

-- What the rows of a query add one after another.
unfoldable pub all_listed :
    (List Value → Result (List Proposal)) → List (List Value) → Result (List Proposal)
all_listed read [] = ok []
all_listed read (it ∷ its) =
    let later = all_listed read its in
    bind_result (read it) (λ l. bind_result later (λ m. ok (l ++ m)))

bind_result-ok : {A : Type 0} (r : Result A) → bind_result r ok ≡ r
bind_result-ok (ok a) = refl
bind_result-ok (throws e) = refl

proposals_of-pure :
    (r : Result (Unit {0}) × Listing) → proposals_of (continued r pure) ≡ proposals_of r
unfolding pure
proposals_of-pure (ok tt, s) = refl
proposals_of-pure (throws e, s) = refl

module _ (db : Chainbase) (rd : RowReader db) (ms : MsigReader db rd) where
  module _ (abis : rd.Serializer) (proposer : String) where
    -- A whole walk over the table approvals, with what comes after it.
    approvals-listed :
        (f : List ℕ → Effect Listing Bool) (read : List ℕ → Result (List Proposal × Bool))
        → AddsRow db rd ms abis f read
        → (A : Type 0) (k : Unit {0} → Effect Listing A)
          (W : List Proposal → Result (List Proposal))
        → ((s : Listing) → proposals_of (k tt s) ≡ W s.proposals)
        → (s : Listing)
        → proposals_of (continued (walk_approvals db rd ms proposer f s) k)
          ≡ bind_result
              (listed read (msig_rows db rd ms proposer "approvals"))
              (λ l. W (s.proposals ++ l))
    unfolding walk_approvals walk_key_value_table
    approvals-listed f read adds A k W reads s = rw walk_table-rows (
        walk_rows-listed db rd ms abis f read adds k W reads
          (msig_rows db rd ms proposer "approvals") s)

    -- The walk by itself, from an empty result.
    approvals_lem :
        (f : List ℕ → Effect Listing Bool) (read : List ℕ → Result (List Proposal × Bool))
        → AddsRow db rd ms abis f read
        → (p : Proposal)
        → proposals_of (walk_approvals db rd ms proposer f (record { proposals = []; pro = p }))
          ≡ listed read (msig_rows db rd ms proposer "approvals")
    approvals_lem f read adds p =
        sym (proposals_of-pure _)
        ∙ approvals-listed f read adds (Unit {0}) pure ok (λ s. unfold pure in refl)
            (record { proposals = []; pro = p })
        ∙ bind_result-ok (listed read (msig_rows db rd ms proposer "approvals"))

  -- What a row of the table `proposal` of the plugin's own database adds to the answer of
  -- get_pending_proposals.
  unfoldable pub read_stored : rd.Serializer → List Value → Result (List Proposal)
  read_stored abis it = bind_result (get_text 0 it) (λ proposer.
      bind_result (get_text 1 it) (λ proposal_name.
        listed
          (read_pending db rd ms abis (ms.string_to_name proposer)
            (ms.string_to_name proposal_name))
          (msig_rows db rd ms (ms.string_to_name proposer) "approvals")))

  module _ (abis : rd.Serializer) (uninitialised : ℕ) where
    pending_row_lem :
        (it : List Value) {A : Type 0} (k : Unit {0} → Effect Listing A)
        (W : List Proposal → Result (List Proposal))
        → ((s : Listing) → proposals_of (k tt s) ≡ W s.proposals)
        → (s : Listing)
        → proposals_of (continued (pending_row db rd ms uninitialised abis it s) k)
          ≡ bind_result (read_stored abis it) (λ l. W (s.proposals ++ l))
    unfolding pending_row read_stored ◌>>=◌
    pending_row_lem it {A} k W reads s =
        lift_added db rd ms abis "" (get_text 0 it) _ k s
        ∙ ap (bind_result (get_text 0 it)) (
            fun_ext λ proposer.
              lift_added db rd ms abis "" (get_text 1 it) _ k s
              ∙ ap (bind_result (get_text 1 it)) (
                  fun_ext λ name.
                    let n = ms.string_to_name proposer in
                    approvals-listed abis n _ _
                      (pending-AddsRow db rd ms abis n (ms.string_to_name name)) A k W reads
                      (record s { pro = new_proposal uninitialised }))
              ∙ sym (bind_result_assoc (get_text 1 it) _ (λ l. W (s.proposals ++ l))))
        ∙ sym (bind_result_assoc (get_text 0 it) _ (λ l. W (s.proposals ++ l)))

    rows_lem :
        (its : List (List Value)) (s : Listing)
        → proposals_of (for_each its (pending_row db rd ms uninitialised abis) s)
          ≡ bind_result (all_listed (read_stored abis) its) (λ m. ok (s.proposals ++ m))
    unfolding for_each all_listed ◌>>=◌
    rows_lem [] s = unfold pure in rw append-nil refl
    rows_lem (it ∷ its) s =
        let later = all_listed (read_stored abis) its in
        pending_row_lem it (λ _. for_each its (pending_row db rd ms uninitialised abis))
          (λ l. bind_result later (λ m. ok (l ++ m))) (λ t. rows_lem its t) s
        ∙ ap (bind_result (read_stored abis it)) (
            fun_ext λ l.
              ap (bind_result later)
                (fun_ext λ m. ap (λ (q : List Proposal). ok q) (append_assoc s.proposals l m))
              ∙ sym (bind_result_assoc later (λ m. ok (l ++ m)) (λ m. ok (s.proposals ++ m))))
        ∙ sym (bind_result_assoc (read_stored abis it) _ (λ m. ok (s.proposals ++ m)))

  -- get_my_proposals answers, for each row of the account in the table approvals in order, the
  -- proposal that the row describes with the transaction of that name in the table proposal, if it is
  -- there, whatever the variable `pro` held; or it throws what the first failure throws.
  pub get_my_proposals-eq-listed :
      (uninitialised : ℕ) (account : String)
      → get_my_proposals db rd ms uninitialised account
        ≡ bind_result (msig_serializer db rd ms) (λ abis.
          listed (read_mine db rd ms abis account) (msig_rows db rd ms account "approvals"))
  unfolding get_my_proposals
  get_my_proposals-eq-listed uninitialised account = ap (bind_result (msig_serializer db rd ms)) (
      fun_ext λ abis.
        approvals_lem abis account _ _ (mine-AddsRow db rd ms abis account)
          (new_proposal uninitialised))

  -- get_pending_proposal answers, for each row of the proposer in the table approvals that has the name
  -- asked for, in order, the proposal that the row describes with the transaction of that name in the
  -- table proposal, if it is there, whatever the variable `pro` held; or it throws what the first
  -- failure throws.
  pub get_pending_proposal-eq-listed :
      (uninitialised : ℕ) (proposer proposal_name : String)
      → get_pending_proposal db rd ms uninitialised proposer proposal_name
        ≡ bind_result (msig_serializer db rd ms) (λ abis.
          listed
            (read_named db rd ms abis proposer proposal_name)
            (msig_rows db rd ms proposer "approvals"))
  unfolding get_pending_proposal
  get_pending_proposal-eq-listed uninitialised proposer proposal_name =
      ap (bind_result (msig_serializer db rd ms)) (
        fun_ext λ abis.
          approvals_lem abis proposer _ _ (named-AddsRow db rd ms abis proposer proposal_name)
            (new_proposal uninitialised))

  -- Where the query on the stored proposals under a session returns, get_pending_proposals answers,
  -- for each stored proposal in order, the first row of its proposer in the table approvals that has
  -- its name, with the transaction of that name in the table proposal, if both are there; or it throws
  -- what the first failure throws.
  pub get_pending_proposals-eq-all_listed :
      (d : Driver) (uninitialised : ℕ) (account : String) (s s' : d.Db) (stored : Reply)
      → with_session d (d.execute (proposals_like account)) s ≡ (ok stored, s')
      → get_pending_proposals db rd ms d uninitialised account s ≡ (
        bind_result (msig_serializer db rd ms) (λ abis. all_listed (read_stored abis) stored.rows),
        s',
      )
  unfolding get_pending_proposals ◌>>=◌ lift
  get_pending_proposals-eq-all_listed d uninitialised account s s' stored h = rw h (
      ap (λ (r : Result (List Proposal)). (r, s'))
        (ap (bind_result (msig_serializer db rd ms)) (
          fun_ext λ abis.
            rows_lem abis uninitialised stored.rows
              (record { proposals = []; pro = new_proposal uninitialised })
            ∙ bind_result-ok (all_listed (read_stored abis) stored.rows))))
