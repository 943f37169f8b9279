-- ===== src/Contents/Once.antt =====
-- Which rows of the table actions the consume calls of sql_database (sql_db_plugin/db/database.cpp) add:
-- by the account, the name and the transaction of a row.
use mathlib.Core.Bool.{false≢true}
use eos_sql_db_plugin.Base.{
  ℕ, String, ◌≡◌, refl, sym, ◌∙◌, subst, Option, none, some, List, [], ◌∷◌, map,
}
use eos_sql_db_plugin.Effect.{Exception, Result, ok, throws}
use eos_sql_db_plugin.Sql.{Value, text}
use eos_sql_db_plugin.Chain.{Action, SystemContractArg, TransactionTrace, ChainLib}
use eos_sql_db_plugin.Database.Traversal.{selected}
use eos_sql_db_plugin.Contents.{
  Contents, Write, write_abi, add_account, add_key, write_vote, write_proposal, drop_proposal,
  write_asset, add_row, Server, apply, abi_text,
}
use eos_sql_db_plugin.Contents.Actions.{
  from_verdict, until_refused, data_of, parsed, row_of, after_row, after_action,
}
use eos_sql_db_plugin.Contents.Traces.{unless_thrown, after_actions, after_traces}
use eos_sql_db_plugin.Contents.Rows.{Keeping, AllKeeping}
use eos_sql_db_plugin.Contents.Invariant.{data_of-Kept, parsed-Kept}

-- The columns account, name and transaction_id of a row of actions.
abbrev pub key_of : List Value → List Value
key_of (account ∷ created_at ∷ name ∷ json ∷ authorization ∷ id ∷ _) = account ∷ name ∷ id ∷ []
key_of _ = []

abbrev pub keys_of : Contents → List (List Value)
keys_of s = map key_of s.actions

-- Those of the selected actions of one transaction after another, newest first, above the keys that
-- there are.
abbrev pub with_actions : List Action → (id : String) → List (List Value) → List (List Value)
with_actions [] id keys = keys
with_actions (action ∷ actions) id keys =
    with_actions actions id ((text action.account ∷ text action.name ∷ text id ∷ []) ∷ keys)

abbrev pub with_traces :
    (filter_on : List String) → List TransactionTrace → List (List Value) → List (List Value)
with_traces filter_on [] keys = keys
with_traces filter_on (tc ∷ tcs) keys =
    with_traces filter_on tcs (with_actions (selected filter_on tc.action_traces) tc.id keys)

-- The first list is the second with some of its elements left out.
pub data Sublist {A : Type 0} : List A → List A → Type 0 where
  empty : Sublist [] []
  left_out : {xs ys : List A} (y : A) → Sublist xs ys → Sublist xs (y ∷ ys)
  kept : {xs ys : List A} (x : A) → Sublist xs ys → Sublist (x ∷ xs) (x ∷ ys)

Sublist-refl : {A : Type 0} (xs : List A) → Sublist xs xs
Sublist-refl [] = empty
Sublist-refl (x ∷ xs) = kept x (Sublist-refl xs)

Sublist_trans : {A : Type 0} {xs ys zs : List A} → Sublist xs ys → Sublist ys zs → Sublist xs zs
Sublist_trans s empty = s
Sublist_trans s (left_out y t) = left_out y (Sublist_trans s t)
Sublist_trans (left_out y s) (kept _ t) = left_out y (Sublist_trans s t)
Sublist_trans (kept x s) (kept _ t) = kept x (Sublist_trans s t)

-- More keys stay more.
with_actions-Sublist :
    (actions : List Action) (id : String) (xs ys : List (List Value))
    → Sublist xs ys
    → Sublist (with_actions actions id xs) (with_actions actions id ys)
with_actions-Sublist [] id xs ys h = h
with_actions-Sublist (action ∷ actions) id xs ys h = with_actions-Sublist actions id _ _ (kept _ h)

with_actions-above :
    (actions : List Action) (id : String) (xs : List (List Value))
    → Sublist xs (with_actions actions id xs)
with_actions-above [] id xs = Sublist-refl xs
with_actions-above (action ∷ actions) id xs =
    Sublist_trans (left_out _ (Sublist-refl xs)) (with_actions-above actions id _)

with_traces-Sublist :
    (filter_on : List String) (tcs : List TransactionTrace) (xs ys : List (List Value))
    → Sublist xs ys
    → Sublist (with_traces filter_on tcs xs) (with_traces filter_on tcs ys)
with_traces-Sublist filter_on [] xs ys h = h
with_traces-Sublist filter_on (tc ∷ tcs) xs ys h =
    with_traces-Sublist filter_on tcs _ _
      (with_actions-Sublist (selected filter_on tc.action_traces) tc.id xs ys h)

module _ (sv : Server) where
  -- A write of no row of actions: with an empty list of names no row of actions keeps to it.
  apply-actions : (w : Write) (s : Contents) → Keeping sv [] w → (apply sv w s).actions ≡ s.actions
  apply-actions (write_abi account json update) s k = refl
  apply-actions (add_account name update) s k = refl
  apply-actions (add_key account key permission) s k = refl
  apply-actions (write_vote voter proxy producers update_proxy update_producers) s k = refl
  apply-actions (write_proposal row update) s k = refl
  apply-actions (drop_proposal proposer proposal_name) s k = refl
  apply-actions (write_asset row) s k = refl
  apply-actions (add_row before json behind) s k = absurd (false≢true (k ""))

  verdict-actions :
      (o : Option Exception) (w : Write) (following : Contents → Contents) (s : Contents)
      → Keeping sv [] w
      → ((t : Contents) → (following t).actions ≡ t.actions)
      → (from_verdict sv o w following s).actions ≡ s.actions
  verdict-actions none w following s k f = f (apply sv w s) ∙ apply-actions w s k
  verdict-actions (some e) w following s k f = refl

  pub until_refused-actions :
      (ws : List Write) (s : Contents)
      → AllKeeping sv [] ws
      → (until_refused sv ws s).actions ≡ s.actions
  until_refused-actions [] s k = refl
  until_refused-actions (w ∷ ws) s (k, ks) =
      verdict-actions (sv.refused w s) w (until_refused sv ws) s k
        (λ t. until_refused-actions ws t ks)

  module _ (c : ChainLib) where
    abbrev pub key : Action → (id : String) → List Value
    key action id = text action.account ∷ text action.name ∷ text id ∷ []

    row_verdict :
        (o : Option Exception) (action : Action) (id : String) (time : ℕ) (json : String)
        (arg : SystemContractArg) (s : Contents)
        → Sublist
            (keys_of (from_verdict sv o (row_of c action id time json arg) (λ t. t) s))
            (key action id ∷ keys_of s)
    row_verdict none action id time json arg s = kept _ (Sublist-refl (keys_of s))
    row_verdict (some e) action id time json arg s = left_out _ (Sublist-refl (keys_of s))

    after_row-keys :
        (action : Action) (id : String) (time : ℕ) (json : String) (r : Result SystemContractArg)
        (s : Contents)
        → Sublist (keys_of (after_row c sv action id time json r s).1) (key action id ∷ keys_of s)
    after_row-keys action id time json (throws e) s = left_out _ (Sublist-refl (keys_of s))
    after_row-keys action id time json (ok arg) s =
        let row : Write = row_of c action id time json arg in
        let t : Contents = until_refused sv (row ∷ []) s in
        let abi : String = abi_text action.account t in
        subst (λ l. Sublist (map key_of l) (key action id ∷ keys_of s))
          (sym (until_refused-actions (parsed c action abi) t (parsed-Kept c sv [] action abi)))
          (row_verdict (sv.refused row s) action id time json arg s)

    after_action-keys :
        (action : Action) (id : String) (time : ℕ) (s : Contents)
        → Sublist (keys_of (after_action c sv action id time s).1) (key action id ∷ keys_of s)
    after_action-keys action id time s =
        let abi : String = abi_text action.account s in
        let made : String × List Write = data_of c action abi in
        subst
          (λ l.
            Sublist (keys_of (after_action c sv action id time s).1) (key action id ∷ map key_of l))
          (until_refused-actions made.1 s (data_of-Kept c sv [] action abi))
          (after_row-keys action id time made.0 (c.arg_of_json made.0) (until_refused sv made.1 s))

    unless_thrown-keys :
        (r : Result (Unit {0}) × Contents) (actions : List Action) (id : String)
        (following : Contents → Contents) (keys : List (List Value))
        → Sublist (keys_of r.1) keys
        → ((t : Contents) → Sublist (keys_of (following t)) (with_actions actions id (keys_of t)))
        → Sublist (keys_of (unless_thrown r following)) (with_actions actions id keys)
    unless_thrown-keys (ok a, t) actions id following keys h k =
        Sublist_trans (k t) (with_actions-Sublist actions id (keys_of t) keys h)
    unless_thrown-keys (throws e, t) actions id following keys h k =
        Sublist_trans h (with_actions-above actions id keys)

    after_actions-keys :
        (actions : List Action) (id : String) (time : ℕ) (s : Contents)
        → Sublist
            (keys_of (after_actions c sv actions id time s))
            (with_actions actions id (keys_of s))
    after_actions-keys [] id time s = Sublist-refl (keys_of s)
    after_actions-keys (action ∷ actions) id time s =
        unless_thrown-keys (after_action c sv action id time s) actions id
          (after_actions c sv actions id time) (key action id ∷ keys_of s)
          (after_action-keys action id time s) (after_actions-keys actions id time)

    pub after_traces-keys :
        (filter_on : List String) (tcs : List TransactionTrace) (s : Contents)
        → Sublist
            (keys_of (after_traces c sv filter_on tcs s))
            (with_traces filter_on tcs (keys_of s))
    after_traces-keys filter_on [] s = Sublist-refl (keys_of s)
    after_traces-keys filter_on (tc ∷ tcs) s =
        let actions : List Action = selected filter_on tc.action_traces in
        let t : Contents = after_actions c sv actions tc.id tc.block_time s in
        Sublist_trans (after_traces-keys filter_on tcs t) (
          with_traces-Sublist filter_on tcs (keys_of t) (with_actions actions tc.id (keys_of s))
            (after_actions-keys actions tc.id tc.block_time s))
