-- ===== src/Contents/AbiSets.antt =====
-- Which actions change the ABI that an account has in the table accounts: of those that
-- actions_table::add of sql_db_plugin/db/actions_table.cpp records, the setabi actions for the account.
use mathlib.Core.List.{append-nil}
use eos_sql_db_plugin.Base.{
  ℕ, subst, String, ◌≡◌, refl, ◌∙◌, Bool, true, false, ◌&&◌, ◌||◌, not, inl, inr, Bool-cases, List,
  [], ◌∷◌, ◌++◌, map, str_eq, is_empty, if◌then◌else◌,
}
use eos_sql_db_plugin.Base.Int.{is_positive}
use eos_sql_db_plugin.Effect.{
  fc_exception, mysql_soci_error, std_exception, unknown, Result, ok, throws,
}
use eos_sql_db_plugin.Chain.{
  Action, Asset, SetAbi, NewAccount, SystemContractArg, TransactionTrace, ChainLib,
}
use eos_sql_db_plugin.Database.Traversal.{selected}
use eos_sql_db_plugin.Contents.{Contents, Write, add_key, Server, abi_text}
use eos_sql_db_plugin.Contents.Actions.{
  until_refused, set_data, setabi_of, data_of, newaccount_writes, vote_writes, propose_writes,
  end_writes, create_writes, action_writes, variant_writes, parsed, row_of, after_row, after_action,
}
use eos_sql_db_plugin.Contents.Traces.{unless_thrown, after_actions, after_traces}
use eos_sql_db_plugin.Contents.AbiText.{Same, AllLeave, until_refused-Same}

module _ (sv : Server) (account : String) (c : ChainLib) where
  abbrev is_for : Result SetAbi → Bool
  is_for (ok sa) = str_eq sa.account account
  is_for (throws e) = false

  -- A setabi action for the account.
  abbrev pub sets_abi : Action → Bool
  sets_abi action =
      (str_eq action.account c.system_account_name && str_eq action.name "setabi")
      && is_for (c.as_setabi action.bytes)

  abbrev pub NoneSets : List Action → Type 0
  NoneSets [] = Unit {0}
  NoneSets (action ∷ actions) = (sets_abi action ≡ false) × NoneSets actions

  abbrev pub NoTraceSets : (filter_on : List String) → List TransactionTrace → Type 0
  NoTraceSets filter_on [] = Unit {0}
  NoTraceSets filter_on (tc ∷ tcs) =
      NoneSets (selected filter_on tc.action_traces) × NoTraceSets filter_on tcs

  set_data-AllLeave :
      (action : Action) (abi other : String) (r : Result c.Abi)
      → str_eq other account ≡ false
      → AllLeave sv account (set_data c action abi other r).1
  set_data-AllLeave action abi other (ok new) h = (h, tt)
  set_data-AllLeave action abi other (throws fc_exception) h = tt
  set_data-AllLeave action abi other (throws mysql_soci_error) h = tt
  set_data-AllLeave action abi other (throws std_exception) h = tt
  set_data-AllLeave action abi other (throws unknown) h = tt

  setabi_of-AllLeave :
      (action : Action) (abi : String) (r : Result SetAbi)
      → is_for r ≡ false
      → AllLeave sv account (setabi_of c action abi r).1
  setabi_of-AllLeave action abi (ok sa) h =
      set_data-AllLeave action abi sa.account (c.unpack_abi sa.abi) h
  setabi_of-AllLeave action abi (throws e) h = tt

  data_of-AllLeave :
      (action : Action) (abi : String)
      → sets_abi action ≡ false
      → AllLeave sv account (data_of c action abi).1
  data_of-AllLeave action abi h = elim (Bool-cases (is_empty action.bytes)) [
    | inl empty ↦ rw empty tt
    | inr full ↦
        elim (Bool-cases
          (str_eq action.account c.system_account_name && str_eq action.name "setabi")) [
            | inl set ↦
                rw (full, set)
                  (setabi_of-AllLeave action abi (c.as_setabi action.bytes) (rw set at h))
            | inr other ↦ rw (full, other) tt
          ]
  ]

  keys-AllLeave :
      (name permission : String) (keys : List String) (ws : List Write)
      → AllLeave sv account ws
      → AllLeave sv account (map (λ key. add_key name key permission) keys ++ ws)
  keys-AllLeave name permission [] ws h = h
  keys-AllLeave name permission (key ∷ keys) ws h = (tt, keys-AllLeave name permission keys ws h)

  newaccount_writes-AllLeave : (r : Result NewAccount) → AllLeave sv account (newaccount_writes c r)
  newaccount_writes-AllLeave (ok a) = (
    refl,
    keys-AllLeave a.name "owner" a.owner_keys _ (
        subst (AllLeave sv account) (append-nil _)
          (keys-AllLeave a.name "active" a.active_keys [] tt)),
  )
  newaccount_writes-AllLeave (throws e) = tt

  AllLeave-if :
      (b : Bool) (ws ws' : List Write)
      → AllLeave sv account ws
      → AllLeave sv account ws'
      → AllLeave sv account (if b then ws else ws')
  AllLeave-if true ws ws' h k = h
  AllLeave-if false ws ws' h k = k

  vote_writes-AllLeave : (v p r : Result String) → AllLeave sv account (vote_writes c v p r)
  vote_writes-AllLeave (ok v) (ok p) (ok r) = (tt, tt)
  vote_writes-AllLeave (ok v) (ok p) (throws e) = tt
  vote_writes-AllLeave (ok v) (throws e) r = tt
  vote_writes-AllLeave (throws e) p r = tt

  propose_writes-AllLeave : (p n r : Result String) → AllLeave sv account (propose_writes c p n r)
  propose_writes-AllLeave (ok p) (ok n) (ok r) = (tt, tt)
  propose_writes-AllLeave (ok p) (ok n) (throws e) = tt
  propose_writes-AllLeave (ok p) (throws e) r = tt
  propose_writes-AllLeave (throws e) n r = tt

  end_writes-AllLeave : (p n : Result String) → AllLeave sv account (end_writes c p n)
  end_writes-AllLeave (ok p) (ok n) = (tt, tt)
  end_writes-AllLeave (ok p) (throws e) = tt
  end_writes-AllLeave (throws e) n = tt

  create_writes-AllLeave :
      (owner : String) (i : Result String) (m : Result Asset)
      → AllLeave sv account (create_writes c owner i m)
  create_writes-AllLeave owner (ok i) (ok m) =
      AllLeave-if (str_eq i "" || not (is_positive m.amount)) _ _ tt (tt, tt)
  create_writes-AllLeave owner (ok i) (throws e) = tt
  create_writes-AllLeave owner (throws e) m = tt

  action_writes-AllLeave :
      (action : Action) (v : c.Variant) → AllLeave sv account (action_writes c action v)
  action_writes-AllLeave action v =
      AllLeave-if (str_eq action.account c.system_account_name) _ _
        (AllLeave-if (str_eq action.name "newaccount") _ _ (newaccount_writes-AllLeave _)
          (AllLeave-if (str_eq action.name "voteproducer") _ _ (vote_writes-AllLeave _ _ _) tt))
        (AllLeave-if (str_eq action.account "eosio.msig") _ _
          (AllLeave-if (str_eq action.name "propose") _ _ (propose_writes-AllLeave _ _ _) (
            AllLeave-if (str_eq action.name "cancel" || str_eq action.name "exec") _ _
              (end_writes-AllLeave _ _) tt))
          (AllLeave-if (str_eq action.name "create") _ _
            (create_writes-AllLeave action.account (c.name_of_field v "issuer")
              (c.asset_of_field v "maximum_supply"))
            tt))

  variant_writes-AllLeave :
      (action : Action) (r : Result c.Variant) → AllLeave sv account (variant_writes c action r)
  variant_writes-AllLeave action (ok v) = action_writes-AllLeave action v
  variant_writes-AllLeave action (throws e) = tt

  parsed-AllLeave : (action : Action) (abi : String) → AllLeave sv account (parsed c action abi)
  parsed-AllLeave action abi =
      AllLeave-if (not (str_eq abi "")) _ _ (variant_writes-AllLeave action _) (
        AllLeave-if (str_eq action.account c.system_account_name) _ _
          (variant_writes-AllLeave action _) tt)

  pub after_row-Same :
      (action : Action) (id : String) (time : ℕ) (json : String) (r : Result SystemContractArg)
      (s : Contents)
      → Same sv account (after_row c sv action id time json r s).1 s
  after_row-Same action id time json (throws e) s = refl
  after_row-Same action id time json (ok arg) s =
      let row : List Write = row_of c action id time json arg ∷ [] in
      let t : Contents = until_refused sv row s in
      let abi : String = abi_text action.account t in
      until_refused-Same sv account (parsed c action abi) t (parsed-AllLeave action abi)
      ∙ until_refused-Same sv account row s (tt, tt)

  after_action-Same :
      (action : Action) (id : String) (time : ℕ) (s : Contents)
      → sets_abi action ≡ false
      → Same sv account (after_action c sv action id time s).1 s
  after_action-Same action id time s h =
      let abi : String = abi_text action.account s in
      let made : String × List Write = data_of c action abi in
      after_row-Same action id time made.0 (c.arg_of_json made.0) (until_refused sv made.1 s)
      ∙ until_refused-Same sv account made.1 s (data_of-AllLeave action abi h)

  pub unless_thrown-Same :
      (r : Result (Unit {0}) × Contents) (following : Contents → Contents)
      → ((t : Contents) → Same sv account (following t) t)
      → Same sv account (unless_thrown r following) r.1
  unless_thrown-Same (ok a, t) following f = f t
  unless_thrown-Same (throws e, t) following f = refl

  pub after_actions-Same :
      (actions : List Action) (id : String) (time : ℕ) (s : Contents)
      → NoneSets actions
      → Same sv account (after_actions c sv actions id time s) s
  after_actions-Same [] id time s h = refl
  after_actions-Same (action ∷ actions) id time s (h, hs) =
      unless_thrown-Same (after_action c sv action id time s) (after_actions c sv actions id time)
        (λ t. after_actions-Same actions id time t hs)
      ∙ after_action-Same action id time s h

  pub after_traces-Same :
      (filter_on : List String) (tcs : List TransactionTrace) (s : Contents)
      → NoTraceSets filter_on tcs
      → Same sv account (after_traces c sv filter_on tcs s) s
  after_traces-Same filter_on [] s h = refl
  after_traces-Same filter_on (tc ∷ tcs) s (h, hs) =
      let actions : List Action = selected filter_on tc.action_traces in
      after_traces-Same filter_on tcs (after_actions c sv actions tc.id tc.block_time s) hs
      ∙ after_actions-Same actions tc.id tc.block_time s h
