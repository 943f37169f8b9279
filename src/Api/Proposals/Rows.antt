-- ===== src/Api/Proposals/Rows.antt =====
-- The walks over the tables approvals and proposal of eosio.msig against what their rows say, with
-- the variable `pro` forgotten.
use Prim.Native.String.{len}
use mathlib.Core.List.{append-nil}
use eos_sql_db_plugin.Base.{
  ℕ, ◌/◌, String, ◌≡◌, refl, sym, ap, ◌∙◌, fun_ext, Bool, true, false, Option, none, some, List, [],
  ◌∷◌, ◌++◌, str_eq, arith, if◌then◌else◌,
}
use eos_sql_db_plugin.Effect.{
  Result, ok, throws, bind_result, Effect, pure, ◌>>=◌, continued, continued_assoc,
}
use eos_sql_db_plugin.Api.Chainbase.{Chainbase, walk_rows}
use eos_sql_db_plugin.Api.Resources.{RowReader}
use eos_sql_db_plugin.Api.Proposals.{
  Checked, passed, not_authorized, failed, MsigReader, Proposal, Listing, make_resolver,
  on_proposal, fill_pro, proposals_of,
}

pub bind_result_assoc :
    {A B C : Type 0} (r : Result A) (f : A → Result B) (g : B → Result C)
    → bind_result (bind_result r f) g ≡ bind_result r (λ a. bind_result (f a) g)
bind_result_assoc (ok a) f g = refl
bind_result_assoc (throws e) f g = refl

-- The rows of a table that may not be there.
abbrev pub rows_in : Chainbase → Option ℕ → List (List ℕ)
rows_in db none = []
rows_in db (some t_id) = db.rows_of t_id

-- The authorization that `status` shows.
abbrev pub status_of : Checked → Result ℕ
status_of passed = ok 1
status_of not_authorized = ok 0
status_of (failed e) = throws e

-- `pro` with the transaction and the status of its proposal, if there is one.
abbrev pub completed : Proposal → Option (String × ℕ) → List Proposal
completed p none = []
completed p (some (transaction, status)) =
    record p { transaction = transaction; status = status } ∷ []

abbrev pub or_else :
    Option (String × ℕ) → Result (Option (String × ℕ)) → Result (Option (String × ℕ))
or_else none r = r
or_else (some x) r = ok (some x)

-- What the rows of a table add one after another, where each says whether the walk goes on.
unfoldable pub listed :
    (List ℕ → Result (List Proposal × Bool)) → List (List ℕ) → Result (List Proposal)
listed read [] = ok []
listed read (value ∷ rows) =
    let later = listed read rows in
    bind_result (read value) (λ x. if x.1 then bind_result later (λ l. ok (x.0 ++ l)) else ok x.0)

module _ (db : Chainbase) (rd : RowReader db) (ms : MsigReader db rd) (abis : rd.Serializer) where
  abbrev pub decoded : (table : String) → List ℕ → Result rd.Variant
  decoded table value = rd.binary_to_variant abis (ms.table_type abis table) value

  -- The transaction and the status of the proposal in a row of the table proposal, if it is the one
  -- that is wanted.
  unfoldable pub read_proposal :
      (compared : String → Result String)
      → (row : rd.Variant) → (wanted : String) → List ℕ
      → Result (Option (String × ℕ))
  read_proposal compared row wanted value = bind_result (decoded "proposal" value) (λ row2.
      bind_result (bind_result (rd.text_of_field row2 "proposal_name") compared) (λ found.
        if str_eq found wanted
        then bind_result (ms.string_of_field row2 "packed_transaction") (λ hex.
          bind_result (ms.from_hex hex (len hex / 2)) (λ blob.
            bind_result (ms.unpack_transaction blob) (λ trx.
              bind_result (ms.to_variant (make_resolver db rd ms) trx) (λ pretty.
                bind_result (ms.permissions_of_field row "provided_approvals") (λ provided.
                  bind_result (status_of (ms.check_authorization trx provided))
                    (λ status. ok (some (ms.json_of_variant pretty, status))))))))
        else ok none))

  -- The first row that is wanted.
  unfoldable pub scan :
      (compared : String → Result String)
      → (row : rd.Variant) → (wanted : String) → List (List ℕ)
      → Result (Option (String × ℕ))
  scan compared row wanted [] = ok none
  scan compared row wanted (value ∷ rows) =
      let later = scan compared row wanted rows in
      bind_result (read_proposal compared row wanted value) (λ o. or_else o later)

  -- The proposal that a row of the table approvals describes, with no transaction yet.
  unfoldable pub filled : (proposer : String) → (row : rd.Variant) → Result Proposal
  filled proposer row = bind_result (ms.name_of_field row "proposal_name") (λ name.
      bind_result (ms.json_of_field row "requested_approvals") (λ requested.
        bind_result (ms.json_of_field row "provided_approvals") (λ provided. ok (record {
          proposer = proposer;
          proposal_name = name;
          transaction = "";
          requested_approvals = requested;
          provided_approvals = provided;
          status = 0;
        }))))

  on_proposal_lem :
      {A : Type 0} (compared : String → Result String) (row : rd.Variant)
      (wanted : Listing → String) (value : List ℕ) (s : Listing) (k : Bool → Effect Listing A)
      → proposals_of (continued (on_proposal db rd ms abis compared row wanted value s) k)
        ≡ bind_result (read_proposal compared row (wanted s) value) (λ o. elim o [
          | none ↦ proposals_of (k true s)
          | some x ↦ proposals_of (
              k false (record {
                proposals = s.proposals ++ completed s.pro (some x);
                pro = record s.pro { transaction = x.0; status = x.1 };
              }))
        ])
  unfolding on_proposal read_proposal ◌>>=◌
  on_proposal_lem compared row wanted value s k = ground arith

  pub fill_pro_lem :
      {A : Type 0} (proposer : String) (row : rd.Variant) (s : Listing)
      (k : Unit {0} → Effect Listing A)
      → proposals_of (continued (fill_pro db rd ms proposer row s) k)
        ≡ bind_result
            (filled proposer row)
            (λ p. proposals_of (k tt (record s { pro = record p { status = s.pro.status } })))
  unfolding fill_pro filled ◌>>=◌
  fill_pro_lem proposer row s k = ground arith

  -- `k` reads nothing of the state but the proposals.
  abbrev pub Reads :
      {A X : Type 0}
      → (X → Effect Listing A)
      → (X → List Proposal → Result (List Proposal))
      → Type 0
  Reads {X = X} k W = (x : X) (s : Listing) → proposals_of (k x s) ≡ W x s.proposals

  module _ {A : Type 0} (compared : String → Result String) (row : rd.Variant)
      (wanted : Listing → String) (n : String) (k : Unit {0} → Effect Listing A)
      (W : Unit {0} → List Proposal → Result (List Proposal)) (reads : Reads k W) where
    abbrev pub after_scan : Listing → Option (String × ℕ) → Result (List Proposal)
    after_scan s o = W tt (s.proposals ++ completed s.pro o)

    scan_next :
        (rows : List (List ℕ)) (s : Listing)
        → proposals_of
            (continued (walk_rows rows (on_proposal db rd ms abis compared row wanted) s) k)
          ≡ bind_result (scan compared row n rows) (after_scan s)
        → (o : Option (String × ℕ))
        → (elim o [
          | none ↦
              proposals_of
                (continued (walk_rows rows (on_proposal db rd ms abis compared row wanted) s) k)
          | some x ↦ proposals_of (
              k tt (record {
                proposals = s.proposals ++ completed s.pro (some x);
                pro = record s.pro { transaction = x.0; status = x.1 };
              }))
        ])
          ≡ bind_result (or_else o (scan compared row n rows)) (after_scan s)
    scan_next rows s ih none = ih
    scan_next rows s ih (some x) = reads tt _

    pub scan_lem :
        (rows : List (List ℕ)) (s : Listing)
        → wanted s ≡ n
        → proposals_of
            (continued (walk_rows rows (on_proposal db rd ms abis compared row wanted) s) k)
          ≡ bind_result (scan compared row n rows) (after_scan s)
    unfolding walk_rows scan ◌>>=◌
    scan_lem [] s w = unfold pure in rw append-nil (reads tt s)
    scan_lem (value ∷ rows) s w =
        ap proposals_of
          (continued_assoc _ k (on_proposal db rd ms abis compared row wanted value s))
        ∙ on_proposal_lem compared row wanted value s _
        ∙ rw w (
            ap (bind_result (read_proposal compared row n value))
              (fun_ext λ o. scan_next rows s (scan_lem rows s w) o)
            ∙ sym (bind_result_assoc (read_proposal compared row n value) _ (after_scan s)))
