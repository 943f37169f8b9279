-- ===== src/Contents/Exactly.antt =====
-- That the consume calls of sql_database (sql_db_plugin/db/database.cpp) add a row to the table actions
-- for every selected action, where nothing keeps it out.
use eos_sql_db_plugin.Base.{ℕ, String, ◌≡◌, refl, ap, ◌∙◌, Option, none, some, List, [], ◌∷◌, map}
use eos_sql_db_plugin.Effect.{Exception, Result, ok, throws}
use eos_sql_db_plugin.Sql.{Value}
use eos_sql_db_plugin.Chain.{Action, SystemContractArg, TransactionTrace, ChainLib}
use eos_sql_db_plugin.Database.Traversal.{selected}
use eos_sql_db_plugin.Contents.{Contents, Write, Server, abi_text}
use eos_sql_db_plugin.Contents.Actions.{
  from_verdict, until_refused, data_of, parsed, row_of, after_row, after_action,
}
use eos_sql_db_plugin.Contents.Traces.{unless_thrown, after_actions, after_traces}
use eos_sql_db_plugin.Contents.Invariant.{data_of-Kept, parsed-Kept}
use eos_sql_db_plugin.Contents.Once.{
  key_of, keys_of, with_actions, with_traces, until_refused-actions, key,
}

module _ (c : ChainLib) (sv : Server) where
  -- By the tables before it: the action's JSON text is a system_contract_arg, and the row with this
  -- text is not refused.
  abbrev pub IsAccepted : Action → (id : String) → (time : ℕ) → Contents → Type 0
  IsAccepted action id time s =
      let (json, writes) = data_of c action (abi_text action.account s) in
      (arg : SystemContractArg) × (c.arg_of_json json ≡ ok arg)
      × (sv.refused (row_of c action id time json arg) (until_refused sv writes s) ≡ none)

  -- Each by the tables that the ones before it have left.
  abbrev pub AllAccepted : List Action → (id : String) → (time : ℕ) → Contents → Type 0
  AllAccepted [] id time s = Unit {0}
  AllAccepted (action ∷ actions) id time s =
      IsAccepted action id time s
      × AllAccepted actions id time (after_action c sv action id time s).1

  abbrev pub AllTracesAccepted :
      (filter_on : List String) → List TransactionTrace → Contents → Type 0
  AllTracesAccepted filter_on [] s = Unit {0}
  AllTracesAccepted filter_on (tc ∷ tcs) s =
      let actions = selected filter_on tc.action_traces in
      AllAccepted actions tc.id tc.block_time s
      × AllTracesAccepted filter_on tcs (after_actions c sv actions tc.id tc.block_time s)

  row_accepted :
      (o : Option Exception) (action : Action) (id : String) (time : ℕ) (json : String)
      (arg : SystemContractArg) (s : Contents)
      → o ≡ none
      → keys_of (from_verdict sv o (row_of c action id time json arg) (λ t. t) s)
        ≡ key sv c action id ∷ keys_of s
  row_accepted none action id time json arg s h = refl
  row_accepted (some e) action id time json arg s h = cc

  after_row-returned :
      (action : Action) (id : String) (time : ℕ) (json : String) (r : Result SystemContractArg)
      (arg : SystemContractArg) (s : Contents)
      → r ≡ ok arg
      → sv.refused (row_of c action id time json arg) s ≡ none
      → (let x = after_row c sv action id time json r s in
          (x.0 ≡ ok tt) × (keys_of x.1 ≡ key sv c action id ∷ keys_of s))
  after_row-returned action id time json (ok arg') arg s h accepted =
      let same : arg' ≡ arg = cc in
      let row : Write = row_of c action id time json arg' in
      let t : Contents = until_refused sv (row ∷ []) s in
      let abi : String = abi_text action.account t in
      (
        refl,
        ap (map key_of)
              (until_refused-actions sv (parsed c action abi) t (parsed-Kept c sv [] action abi))
            ∙ row_accepted (sv.refused row s) action id time json arg' s (rw same accepted),
      )
  after_row-returned action id time json (throws e) arg s h accepted = cc

  after_action-returned :
      (action : Action) (id : String) (time : ℕ) (s : Contents)
      → IsAccepted action id time s
      → (let x = after_action c sv action id time s in
          (x.0 ≡ ok tt) × (keys_of x.1 ≡ key sv c action id ∷ keys_of s))
  after_action-returned action id time s h =
      let abi : String = abi_text action.account s in
      let made : String × List Write = data_of c action abi in
      let (arg, e, accepted) = h in
      let (returned, keys) =
        after_row-returned action id time made.0 (c.arg_of_json made.0) arg
          (until_refused sv made.1 s) e accepted in
      (
        returned,
        keys
            ∙ ap (λ l. key sv c action id ∷ map key_of l)
                (until_refused-actions sv made.1 s (data_of-Kept c sv [] action abi)),
      )

  unless_thrown-returned :
      (r : Result (Unit {0}) × Contents) (actions : List Action) (id : String)
      (following : Contents → Contents) (keys : List (List Value))
      → r.0 ≡ ok tt
      → keys_of r.1 ≡ keys
      → keys_of (following r.1) ≡ with_actions actions id (keys_of r.1)
      → keys_of (unless_thrown r following) ≡ with_actions actions id keys
  unless_thrown-returned (ok a, t) actions id following keys e h k =
      k ∙ ap (with_actions actions id) h
  unless_thrown-returned (throws x, t) actions id following keys e h k = cc

  after_actions-exactly :
      (actions : List Action) (id : String) (time : ℕ) (s : Contents)
      → AllAccepted actions id time s
      → keys_of (after_actions c sv actions id time s) ≡ with_actions actions id (keys_of s)
  after_actions-exactly [] id time s h = refl
  after_actions-exactly (action ∷ actions) id time s (h, hs) =
      let (returned, keys) = after_action-returned action id time s h in
      unless_thrown-returned (after_action c sv action id time s) actions id
        (after_actions c sv actions id time) (key sv c action id ∷ keys_of s) returned keys
        (after_actions-exactly actions id time (after_action c sv action id time s).1 hs)

  pub after_traces-exactly :
      (filter_on : List String) (tcs : List TransactionTrace) (s : Contents)
      → AllTracesAccepted filter_on tcs s
      → keys_of (after_traces c sv filter_on tcs s) ≡ with_traces filter_on tcs (keys_of s)
  after_traces-exactly filter_on [] s h = refl
  after_traces-exactly filter_on (tc ∷ tcs) s (h, hs) =
      let actions : List Action = selected filter_on tc.action_traces in
      after_traces-exactly filter_on tcs (after_actions c sv actions tc.id tc.block_time s) hs
      ∙ ap (with_traces filter_on tcs) (after_actions-exactly actions tc.id tc.block_time s h)
