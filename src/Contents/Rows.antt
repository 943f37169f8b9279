-- ===== src/Contents/Rows.antt =====
-- What the rows of the tables assets and actions have in common, whatever
-- sql_db_plugin/db/actions_table.cpp records.
use eos_sql_db_plugin.Base.{
  String, ◌≡◌, true, false, ◌&&◌, inl, inr, Bool-cases, Option, none, some, List, [], ◌∷◌, ◌++◌,
  contains, str_eq,
}
use eos_sql_db_plugin.Base.Int.{pos, is_positive}
use eos_sql_db_plugin.Effect.{Exception}
use eos_sql_db_plugin.Sql.{Value, text}
use eos_sql_db_plugin.Contents.{
  AssetRow, Contents, Write, write_abi, add_account, add_key, write_vote, write_proposal,
  drop_proposal, write_asset, add_row, Server, apply, without,
}
use eos_sql_db_plugin.Contents.Actions.{from_verdict, until_refused}

-- A token with an issuer and a positive maximum supply, of which nothing is issued.
abbrev pub IsUnissued : AssetRow → Type 0
IsUnissued row =
    (row.supply ≡ pos 0) × (is_positive row.max_supply ≡ true) × (str_eq row.issuer "" ≡ false)

abbrev pub AllUnissued : List AssetRow → Type 0
AllUnissued [] = Unit {0}
AllUnissued (row ∷ rows) = IsUnissued row × AllUnissued rows

-- The column name of a row of actions.
abbrev pub name_of : List Value → String
name_of (account ∷ created_at ∷ text name ∷ _) = name
name_of _ = ""

abbrev pub AllNamed : List String → List (List Value) → Type 0
AllNamed filter_on [] = Unit {0}
AllNamed filter_on (row ∷ rows) =
    (contains (name_of row) filter_on ≡ true) × AllNamed filter_on rows

-- Every token is unissued, and every action has a name of the list.
abbrev pub IsRecorded : List String → Contents → Type 0
IsRecorded filter_on s = AllUnissued s.assets × AllNamed filter_on s.actions

without-AllUnissued :
    (symbol owner : String) (rows : List AssetRow)
    → AllUnissued rows
    → AllUnissued (without symbol owner rows)
without-AllUnissued symbol owner [] h = tt
without-AllUnissued symbol owner (row ∷ rows) (h, k) =
    elim (Bool-cases (str_eq row.symbol symbol && str_eq row.contract_owner owner)) [
      | inl same ↦ rw same (without-AllUnissued symbol owner rows k)
      | inr other ↦ rw other (h, without-AllUnissued symbol owner rows k)
    ]

append-AllUnissued :
    (rows : List AssetRow) (row : AssetRow)
    → AllUnissued rows
    → IsUnissued row
    → AllUnissued (rows ++ row ∷ [])
append-AllUnissued [] row h k = (k, tt)
append-AllUnissued (old ∷ rows) row (h, hs) k = (h, append-AllUnissued rows row hs k)

module _ (sv : Server) (filter_on : List String) where
  -- A write that keeps this.
  abbrev pub Keeping : Write → Type 0
  Keeping (write_asset row) = IsUnissued row
  Keeping (add_row before json behind) =
      (j : String) → contains (name_of (before ++ text j ∷ behind)) filter_on ≡ true
  Keeping _ = Unit {0}

  abbrev pub AllKeeping : List Write → Type 0
  AllKeeping [] = Unit {0}
  AllKeeping (w ∷ ws) = Keeping w × AllKeeping ws

  apply-IsRecorded :
      (w : Write) (s : Contents)
      → Keeping w
      → IsRecorded filter_on s
      → IsRecorded filter_on (apply sv w s)
  apply-IsRecorded (write_abi account json update) s k h = h
  apply-IsRecorded (add_account name update) s k h = h
  apply-IsRecorded (add_key account key permission) s k h = h
  apply-IsRecorded (write_vote voter proxy producers update_proxy update_producers) s k h = h
  apply-IsRecorded (write_proposal row update) s k h = h
  apply-IsRecorded (drop_proposal proposer proposal_name) s k h = h
  apply-IsRecorded (write_asset row) s k (h, named) = (
    append-AllUnissued _ row (without-AllUnissued row.symbol row.contract_owner s.assets h) k,
    named,
  )
  apply-IsRecorded (add_row before json behind) s k (h, named) = (h, (k (sv.column json), named))

  verdict-IsRecorded :
      (o : Option Exception) (w : Write) (following : Contents → Contents) (s : Contents)
      → Keeping w
      → ((t : Contents) → IsRecorded filter_on t → IsRecorded filter_on (following t))
      → IsRecorded filter_on s
      → IsRecorded filter_on (from_verdict sv o w following s)
  verdict-IsRecorded none w following s k f h = f _ (apply-IsRecorded w s k h)
  verdict-IsRecorded (some e) w following s k f h = h

  pub until_refused-IsRecorded :
      (ws : List Write) (s : Contents)
      → AllKeeping ws
      → IsRecorded filter_on s
      → IsRecorded filter_on (until_refused sv ws s)
  until_refused-IsRecorded [] s k h = h
  until_refused-IsRecorded (w ∷ ws) s (k, ks) h =
      verdict-IsRecorded (sv.refused w s) w (until_refused sv ws) s k
        (λ t. until_refused-IsRecorded ws t ks) h
