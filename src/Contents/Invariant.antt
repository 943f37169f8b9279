-- ===== src/Contents/Invariant.antt =====
-- That every write of actions_table::add (sql_db_plugin/db/actions_table.cpp) keeps what the rows of
-- the tables assets and actions have in common.
use mathlib.Core.List.{append-nil}
use eos_sql_db_plugin.Base.{
  ℕ, subst, String, ◌≡◌, refl, Bool, true, false, ◌&&◌, ◌||◌, not, inl, inr, Bool-cases, List, [],
  ◌∷◌, ◌++◌, map, contains, str_eq, is_empty, if◌then◌else◌,
}
use eos_sql_db_plugin.Base.Int.{is_positive}
use eos_sql_db_plugin.Effect.{
  fc_exception, mysql_soci_error, std_exception, unknown, Result, ok, throws,
}
use eos_sql_db_plugin.Chain.{
  Action, ActionTraces, end, trace, Asset, SetAbi, NewAccount, SystemContractArg, TransactionTrace,
  ChainLib,
}
use eos_sql_db_plugin.Database.Traversal.{selected}
use eos_sql_db_plugin.Contents.{Contents, Write, add_key, Server, abi_text}
use eos_sql_db_plugin.Contents.Actions.{
  until_refused, set_data, setabi_of, data_of, newaccount_writes, vote_writes, propose_writes,
  end_writes, create_writes, action_writes, variant_writes, parsed, row_of, after_row, after_action,
}
use eos_sql_db_plugin.Contents.Traces.{unless_thrown, after_actions, after_traces}
use eos_sql_db_plugin.Contents.Rows.{IsRecorded, AllKeeping, until_refused-IsRecorded}

module _ (c : ChainLib) (sv : Server) (filter_on : List String) where
  abbrev pub Kept : List Write → Type 0
  Kept = AllKeeping sv filter_on

  set_data-Kept :
      (action : Action) (abi account : String) (r : Result c.Abi)
      → Kept (set_data c action abi account r).1
  set_data-Kept action abi account (ok new) = (tt, tt)
  set_data-Kept action abi account (throws fc_exception) = tt
  set_data-Kept action abi account (throws mysql_soci_error) = tt
  set_data-Kept action abi account (throws std_exception) = tt
  set_data-Kept action abi account (throws unknown) = tt

  setabi_of-Kept :
      (action : Action) (abi : String) (r : Result SetAbi) → Kept (setabi_of c action abi r).1
  setabi_of-Kept action abi (ok s) = set_data-Kept action abi s.account (c.unpack_abi s.abi)
  setabi_of-Kept action abi (throws e) = tt

  pub data_of-Kept : (action : Action) (abi : String) → Kept (data_of c action abi).1
  data_of-Kept action abi = elim (Bool-cases (is_empty action.bytes)) [
    | inl empty ↦ rw empty tt
    | inr full ↦
        elim (Bool-cases
          (str_eq action.account c.system_account_name && str_eq action.name "setabi")) [
            | inl set ↦ rw (full, set) (setabi_of-Kept action abi (c.as_setabi action.bytes))
            | inr other ↦ rw (full, other) tt
          ]
  ]

  keys-Kept :
      (name permission : String) (keys : List String) (ws : List Write)
      → Kept ws
      → Kept (map (λ key. add_key name key permission) keys ++ ws)
  keys-Kept name permission [] ws h = h
  keys-Kept name permission (key ∷ keys) ws h = (tt, keys-Kept name permission keys ws h)

  newaccount_writes-Kept : (r : Result NewAccount) → Kept (newaccount_writes c r)
  newaccount_writes-Kept (ok a) = (
    tt,
    keys-Kept a.name "owner" a.owner_keys _
        (subst Kept (append-nil _) (keys-Kept a.name "active" a.active_keys [] tt)),
  )
  newaccount_writes-Kept (throws e) = tt

  Kept-if : (b : Bool) (ws ws' : List Write) → Kept ws → Kept ws' → Kept (if b then ws else ws')
  Kept-if true ws ws' h k = h
  Kept-if false ws ws' h k = k

  vote_writes-Kept : (v p r : Result String) → Kept (vote_writes c v p r)
  vote_writes-Kept (ok v) (ok p) (ok r) = (tt, tt)
  vote_writes-Kept (ok v) (ok p) (throws e) = tt
  vote_writes-Kept (ok v) (throws e) r = tt
  vote_writes-Kept (throws e) p r = tt

  propose_writes-Kept : (p n r : Result String) → Kept (propose_writes c p n r)
  propose_writes-Kept (ok p) (ok n) (ok r) = (tt, tt)
  propose_writes-Kept (ok p) (ok n) (throws e) = tt
  propose_writes-Kept (ok p) (throws e) r = tt
  propose_writes-Kept (throws e) n r = tt

  end_writes-Kept : (p n : Result String) → Kept (end_writes c p n)
  end_writes-Kept (ok p) (ok n) = (tt, tt)
  end_writes-Kept (ok p) (throws e) = tt
  end_writes-Kept (throws e) n = tt

  -- The test of the source: an issuer, and a positive maximum supply.
  create_writes-Kept :
      (owner : String) (i : Result String) (m : Result Asset) → Kept (create_writes c owner i m)
  create_writes-Kept owner (ok i) (ok m) = elim (Bool-cases (str_eq i "")) [
    | inl empty ↦ rw empty tt
    | inr named ↦ elim (Bool-cases (is_positive m.amount)) [
      | inl positive ↦ rw (named, positive) ((refl, positive, named), tt)
      | inr other ↦ rw (named, other) tt
    ]
  ]
  create_writes-Kept owner (ok i) (throws e) = tt
  create_writes-Kept owner (throws e) m = tt

  action_writes-Kept : (action : Action) (v : c.Variant) → Kept (action_writes c action v)
  action_writes-Kept action v =
      Kept-if (str_eq action.account c.system_account_name) _ _
        (Kept-if (str_eq action.name "newaccount") _ _ (newaccount_writes-Kept _)
          (Kept-if (str_eq action.name "voteproducer") _ _ (vote_writes-Kept _ _ _) tt))
        (Kept-if (str_eq action.account "eosio.msig") _ _
          (Kept-if (str_eq action.name "propose") _ _ (propose_writes-Kept _ _ _) (
            Kept-if (str_eq action.name "cancel" || str_eq action.name "exec") _ _
              (end_writes-Kept _ _) tt))
          (Kept-if (str_eq action.name "create") _ _
            (create_writes-Kept action.account (c.name_of_field v "issuer")
              (c.asset_of_field v "maximum_supply"))
            tt))

  variant_writes-Kept : (action : Action) (r : Result c.Variant) → Kept (variant_writes c action r)
  variant_writes-Kept action (ok v) = action_writes-Kept action v
  variant_writes-Kept action (throws e) = tt

  pub parsed-Kept : (action : Action) (abi : String) → Kept (parsed c action abi)
  parsed-Kept action abi =
      Kept-if (not (str_eq abi "")) _ _ (variant_writes-Kept action _) (
        Kept-if (str_eq action.account c.system_account_name) _ _ (variant_writes-Kept action _) tt)

  row_of-Kept :
      (action : Action) (id : String) (time : ℕ) (json : String) (arg : SystemContractArg)
      → contains action.name filter_on ≡ true
      → Kept (row_of c action id time json arg ∷ [])
  row_of-Kept action id time json arg on = (λ j. on, tt)

  abbrev Ends : Result (Unit {0}) × Contents → Type 0
  Ends r = IsRecorded filter_on r.1

  after_row-IsRecorded :
      (action : Action) (id : String) (time : ℕ) (json : String) (r : Result SystemContractArg)
      (s : Contents)
      → contains action.name filter_on ≡ true
      → IsRecorded filter_on s
      → Ends (after_row c sv action id time json r s)
  after_row-IsRecorded action id time json (throws e) s on h = h
  after_row-IsRecorded action id time json (ok arg) s on h =
      let row : List Write = row_of c action id time json arg ∷ [] in
      let t : Contents = until_refused sv row s in
      let abi : String = abi_text action.account t in
      until_refused-IsRecorded sv filter_on (parsed c action abi) t (parsed-Kept action abi)
        (until_refused-IsRecorded sv filter_on row s (row_of-Kept action id time json arg on) h)

  after_action-IsRecorded :
      (action : Action) (id : String) (time : ℕ) (s : Contents)
      → contains action.name filter_on ≡ true
      → IsRecorded filter_on s
      → Ends (after_action c sv action id time s)
  after_action-IsRecorded action id time s on h =
      let made : String × List Write = data_of c action (abi_text action.account s) in
      after_row-IsRecorded action id time made.0 (c.arg_of_json made.0) (until_refused sv made.1 s)
        on
        (until_refused-IsRecorded sv filter_on made.1 s
          (data_of-Kept action (abi_text action.account s)) h)

  unless_thrown-IsRecorded :
      (r : Result (Unit {0}) × Contents) (following : Contents → Contents)
      → Ends r
      → ((t : Contents) → IsRecorded filter_on t → IsRecorded filter_on (following t))
      → IsRecorded filter_on (unless_thrown r following)
  unless_thrown-IsRecorded (ok a, s) following h k = k s h
  unless_thrown-IsRecorded (throws e, s) following h k = h

  abbrev AllOn : List Action → Type 0
  AllOn [] = Unit {0}
  AllOn (action ∷ actions) = (contains action.name filter_on ≡ true) × AllOn actions

  AllOn-append : (xs ys : List Action) → AllOn xs → AllOn ys → AllOn (xs ++ ys)
  AllOn-append [] ys h k = k
  AllOn-append (x ∷ xs) ys (h, hs) k = (h, AllOn-append xs ys hs k)

  AllOn-if :
      (b : Bool) (xs ys : List Action)
      → (b ≡ true → AllOn xs)
      → AllOn ys
      → AllOn (if b then xs else ys)
  AllOn-if true xs ys h k = h refl
  AllOn-if false xs ys h k = k

  selected-AllOn : (traces : ActionTraces) → AllOn (selected filter_on traces)
  unfolding selected
  selected-AllOn end = tt
  selected-AllOn (trace receiver act inline_traces rest) =
      AllOn-append _ _
        (AllOn-if (str_eq receiver act.account) _ []
          (λ own.
            AllOn-if (contains act.name filter_on) (act ∷ []) _ (λ on. (on, tt))
              (selected-AllOn inline_traces))
          tt)
        (selected-AllOn rest)

  after_actions-IsRecorded :
      (actions : List Action) (id : String) (time : ℕ) (s : Contents)
      → AllOn actions
      → IsRecorded filter_on s
      → IsRecorded filter_on (after_actions c sv actions id time s)
  after_actions-IsRecorded [] id time s on h = h
  after_actions-IsRecorded (action ∷ actions) id time s (on, ons) h =
      unless_thrown-IsRecorded (after_action c sv action id time s)
        (after_actions c sv actions id time) (after_action-IsRecorded action id time s on h)
        (λ t. after_actions-IsRecorded actions id time t ons)

  pub after_traces-IsRecorded :
      (tcs : List TransactionTrace) (s : Contents)
      → IsRecorded filter_on s
      → IsRecorded filter_on (after_traces c sv filter_on tcs s)
  after_traces-IsRecorded [] s h = h
  after_traces-IsRecorded (tc ∷ tcs) s h =
      after_traces-IsRecorded tcs
        (after_actions c sv (selected filter_on tc.action_traces) tc.id tc.block_time s)
        (after_actions-IsRecorded (selected filter_on tc.action_traces) tc.id tc.block_time s
          (selected-AllOn tc.action_traces) h)
