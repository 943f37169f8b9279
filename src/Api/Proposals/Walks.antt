-- ===== src/Api/Proposals/Walks.antt =====
-- What a row of the table approvals adds to the result of a query on proposals, and the walk over such
-- rows.
use mathlib.Core.List.{append_assoc, append-nil}
use eos_sql_db_plugin.Base.{
  ℕ, String, ◌≡◌, refl, sym, ap, ◌∙◌, fun_ext, Bool, true, false, Option, none, some, List, [], ◌∷◌,
  ◌++◌, if◌then◌else◌,
}
use eos_sql_db_plugin.Effect.{
  Result, ok, bind_result, Effect, pure, ◌>>=◌, ◌>>◌, continued, continued_assoc,
}
use eos_sql_db_plugin.Api.Chainbase.{Chainbase, walk_rows, walk_table, walk_key_value_table}
use eos_sql_db_plugin.Api.Resources.{RowReader}
use eos_sql_db_plugin.Api.Proposals.{
  MsigReader, Proposal, Listing, fill_pro, walk_proposals, proposals_of,
}
use eos_sql_db_plugin.Api.Proposals.Rows.{
  bind_result_assoc, rows_in, completed, listed, scan, filled, fill_pro_lem, scan_lem, Reads,
}

completed_status :
    (p : Proposal) (status : ℕ) (o : Option (String × ℕ))
    → completed (record p { status = status }) o ≡ completed p o
completed_status p status none = refl
completed_status p status (some x) = refl

pub walk_table-rows :
    {S : Type 0} (db : Chainbase) (t : Option ℕ) (f : List ℕ → Effect S Bool)
    → walk_table db t f (pure tt) ≡ walk_rows (rows_in db t) f
unfolding walk_table walk_rows
walk_table-rows db none f = refl
walk_table-rows db (some t_id) f = refl

module _ (db : Chainbase) (rd : RowReader db) (ms : MsigReader db rd) where
  abbrev pub msig_rows : (proposer table : String) → List (List ℕ)
  msig_rows proposer table = rows_in db (db.find_table "eosio.msig" proposer table)

  module _ (abis : rd.Serializer) (proposer : String) where
    -- The proposal that a row of the table approvals adds, looked up by `wanted` among those of the
    -- proposer, and whether the walk goes on.
    unfoldable pub read_row :
        (compared : String → Result String)
        → (wanted : Proposal → String) → (more : Bool) → rd.Variant
        → Result (List Proposal × Bool)
    read_row compared wanted more row = bind_result (filled db rd ms abis proposer row) (λ p.
        bind_result (scan db rd ms abis compared row (wanted p) (msig_rows proposer "proposal"))
          (λ o. ok (completed p o, more)))

    module _ {A : Type 0} (k : Bool → Effect Listing A)
        (W : Bool → List Proposal → Result (List Proposal)) (reads : Reads db rd ms abis k W) where
      abbrev pub added : Listing → List Proposal × Bool → Result (List Proposal)
      added s x = W x.1 (s.proposals ++ x.0)

      walk_lem :
          (compared : String → Result String) (row : rd.Variant) (wanted : Listing → String)
          (more : Bool) (s : Listing)
          → proposals_of (
              continued
                (continued
                  (walk_proposals db rd ms proposer abis compared row wanted s)
                  (λ _. pure more))
                k)
            ≡ bind_result
                (scan db rd ms abis compared row (wanted s) (msig_rows proposer "proposal"))
                (λ o. W more (s.proposals ++ completed s.pro o))
      unfolding walk_proposals walk_key_value_table ◌>>=◌
      walk_lem compared row wanted more s =
          ap proposals_of (
            continued_assoc (λ _. pure more) k
              (walk_proposals db rd ms proposer abis compared row wanted s))
          ∙ rw walk_table-rows (
              scan_lem db rd ms abis compared row wanted (wanted s) (λ _. pure more >>= k)
                (λ _ l. W more l) (λ x t. reads more t) (msig_rows proposer "proposal") s refl)

      filled_lem :
          (compared : String → Result String) (row : rd.Variant) (wanted : Listing → String)
          (n : String) (more : Bool) (s : Listing) (p : Proposal)
          → let t : Listing = record s { pro = record p { status = s.pro.status } } in
            wanted t ≡ n
            → proposals_of (
                continued
                  (continued
                    (walk_proposals db rd ms proposer abis compared row wanted t)
                    (λ _. pure more))
                  k)
              ≡ bind_result
                  (bind_result
                    (scan db rd ms abis compared row n (msig_rows proposer "proposal"))
                    (λ o. ok (completed p o, more)))
                  (added s)
      filled_lem compared row wanted n more s p w =
          walk_lem compared row wanted more (record s { pro = record p { status = s.pro.status } })
          ∙ rw w (
              ap (bind_result (scan db rd ms abis compared row n (msig_rows proposer "proposal"))) (
                fun_ext
                  λ o. ap (λ l. W more (s.proposals ++ l)) (completed_status p s.pro.status o))
              ∙ sym (
                  bind_result_assoc
                    (scan db rd ms abis compared row n (msig_rows proposer "proposal"))
                    (λ o. ok (completed p o, more)) (added s)))

      pub read_row_lem :
          (compared : String → Result String) (row : rd.Variant) (wanted : Listing → String)
          (wanted' : Proposal → String) (more : Bool) (s : Listing)
          → ((t : Listing) (p : Proposal) (status : ℕ)
              → t.pro ≡ record p { status = status }
              → wanted t ≡ wanted' p)
          → proposals_of (
              continued
                ((fill_pro db rd ms proposer row
                    >> (walk_proposals db rd ms proposer abis compared row wanted >> pure more))
                  s)
                k)
            ≡ bind_result (read_row compared wanted' more row) (added s)
      unfolding read_row ◌>>=◌
      read_row_lem compared row wanted wanted' more s same =
          ap proposals_of (continued_assoc _ k (fill_pro db rd ms proposer row s))
          ∙ fill_pro_lem db rd ms abis proposer row s _
          ∙ ap (bind_result (filled db rd ms abis proposer row)) (
              fun_ext λ p.
                filled_lem compared row wanted (wanted' p) more s p (same _ p s.pro.status refl))
          ∙ sym (bind_result_assoc (filled db rd ms abis proposer row) _ (added s))

  -- The callback `f` adds what `read` says of its row, and goes on if `read` says so.
  abbrev pub AddsRow :
      rd.Serializer
      → (List ℕ → Effect Listing Bool)
      → (List ℕ → Result (List Proposal × Bool))
      → Type 1
  AddsRow abis f read =
      (A : Type 0) (k : Bool → Effect Listing A) (W : Bool → List Proposal → Result (List Proposal))
      → Reads db rd ms abis k W
      → (value : List ℕ) (s : Listing)
      → proposals_of (continued (f value s) k)
        ≡ bind_result (read value) (λ x. W x.1 (s.proposals ++ x.0))

  listed_next :
      (later : Result (List Proposal)) (W : List Proposal → Result (List Proposal))
      (l : List Proposal) (x : List Proposal × Bool)
      → (if x.1 then bind_result later (λ m. W ((l ++ x.0) ++ m)) else W (l ++ x.0))
        ≡ bind_result
            (if x.1 then bind_result later (λ m. ok (x.0 ++ m)) else ok x.0)
            (λ m. W (l ++ m))
  listed_next later W l (found, true) =
      ap (bind_result later) (fun_ext λ m. ap W (append_assoc l found m))
      ∙ sym (bind_result_assoc later (λ m. ok (found ++ m)) (λ m. W (l ++ m)))
  listed_next later W l (found, false) = refl

  module _ (abis : rd.Serializer) (f : List ℕ → Effect Listing Bool)
      (read : List ℕ → Result (List Proposal × Bool)) (adds : AddsRow abis f read) {A : Type 0}
      (k : Unit {0} → Effect Listing A) (W : List Proposal → Result (List Proposal))
      (reads : (s : Listing) → proposals_of (k tt s) ≡ W s.proposals) where
    abbrev goes_on : List (List ℕ) → Bool → Effect Listing (Unit {0})
    goes_on rows more = if more then walk_rows rows f else pure tt

    abbrev then_listed : List (List ℕ) → Bool → List Proposal → Result (List Proposal)
    then_listed rows more l = if more then bind_result (listed read rows) (λ m. W (l ++ m)) else W l

    go_on :
        (rows : List (List ℕ))
        → ((s : Listing)
            → proposals_of (continued (walk_rows rows f s) k)
              ≡ bind_result (listed read rows) (λ m. W (s.proposals ++ m)))
        → Reads db rd ms abis (λ more. goes_on rows more >>= k) (then_listed rows)
    unfolding ◌>>=◌
    go_on rows ih true s = ih s
    go_on rows ih false s = reads s

    pub walk_rows-listed :
        (rows : List (List ℕ)) (s : Listing)
        → proposals_of (continued (walk_rows rows f s) k)
          ≡ bind_result (listed read rows) (λ l. W (s.proposals ++ l))
    unfolding walk_rows listed ◌>>=◌
    walk_rows-listed [] s = unfold pure in rw append-nil (reads s)
    walk_rows-listed (value ∷ rows) s =
        ap proposals_of (continued_assoc (goes_on rows) k (f value s))
        ∙ adds A (λ more. goes_on rows more >>= k) (then_listed rows)
            (go_on rows (walk_rows-listed rows)) value s
        ∙ ap (bind_result (read value))
            (fun_ext λ x. listed_next (listed read rows) W s.proposals x)
        ∙ sym (bind_result_assoc (read value) _ (λ l. W (s.proposals ++ l)))
