-- ===== src/Contents/Decoded.antt =====
-- The ABI that a setabi action leaves in the table accounts, and what later actions are read by
-- (sql_db_plugin/db/actions_table.cpp, sql_db_plugin/db/database.cpp).
use package.text.Mathlib.TextPositions.{eq_refl}
use eos_sql_db_plugin.Base.{
  ℕ, String, ◌≡◌, ◌≢◌, refl, ap, ◌∙◌, str_eq, ◌&&◌, false, true, arith, eq_iff, is_empty, Option,
  none, some, List, [], ◌∷◌,
}
use eos_sql_db_plugin.Effect.{Exception, Result, ok}
use eos_sql_db_plugin.Effect.Simulates.{
  Simulates, Simulates-pure, Simulates-bind, Simulates-for_each,
}
use eos_sql_db_plugin.Sql.{Driver, Value}
use eos_sql_db_plugin.Chain.{Action, SetAbi, TransactionTrace, ChainLib}
use eos_sql_db_plugin.Actions.AddData.{is_setabi, add_data, max_serialization_time}
use eos_sql_db_plugin.Database.{SqlDatabase, consume_transaction_trace}
use eos_sql_db_plugin.Database.Traversal.{record_each}
use eos_sql_db_plugin.Consumer.Batch.{after_all}
use eos_sql_db_plugin.Contents.{Contents, Write, write_abi, Server, apply, abi_text}
use eos_sql_db_plugin.Contents.Actions.{from_verdict, until_refused, data_of, after_action}
use eos_sql_db_plugin.Contents.Laws.{ServerLaws}
use eos_sql_db_plugin.Contents.Simulation.{add_data-Simulates, record_row-Simulates}
use eos_sql_db_plugin.Contents.Recording.{add_data_lem}
use eos_sql_db_plugin.Contents.Traces.{
  after_actions, after_traces, each, after_actions_lem, after_traces_lem,
}
use eos_sql_db_plugin.Contents.AbiSets.{
  NoneSets, NoTraceSets, after_row-Same, unless_thrown-Same, after_actions-Same, after_traces-Same,
}

module _ (sv : Server) where
  write_abi-text :
      (name json : String) (s : Contents) (old : Option Value)
      → s.abi name ≡ old
      → abi_text name (apply sv (write_abi name json json) s) ≡ sv.column json
  write_abi-text name json s none h = rw h (simp eq_refl)
  write_abi-text name json s (some v) h = rw h (simp eq_refl)

  verdict-text :
      (o : Option Exception) (name json : String) (s : Contents)
      → o ≡ none
      → abi_text name (from_verdict sv o (write_abi name json json) (λ t. t) s) ≡ sv.column json
  verdict-text none name json s h = write_abi-text name json s (s.abi name) refl
  verdict-text (some e) name json s h = cc

  module _ (c : ChainLib) where
    open c use {
      Abi, Serializer, Variant, abi_of_json, json_of_abi, unpack_abi, set_abi, get_action_type,
      binary_to_variant, json_of_variant, as_setabi, system_account_name,
    }

    -- A setabi action whose upsert is not refused: its ABI is in the table.
    after_action-setabi :
        (action : Action) (id : String) (time : ℕ) (sa : SetAbi) (abi : Abi) (s : Contents)
        → is_empty action.bytes ≡ false
        → (str_eq action.account system_account_name && str_eq action.name "setabi") ≡ true
        → as_setabi action.bytes ≡ ok sa
        → unpack_abi sa.abi ≡ ok abi
        → sv.refused (write_abi sa.account (json_of_abi abi) (json_of_abi abi)) s ≡ none
        → abi_text sa.account (after_action c sv action id time s).1 ≡ sv.column (json_of_abi abi)
    after_action-setabi action id time sa abi s full set arg un accepted =
        let json : String = json_of_abi abi in
        let made : String × List Write = data_of c action (abi_text action.account s) in
        let known : made ≡ (json, write_abi sa.account json json ∷ []) =
          rw (full, set, arg, un) refl in
        after_row-Same sv sa.account c action id time made.0 (c.arg_of_json made.0)
          (until_refused sv made.1 s)
        ∙ ap (λ (x : String × List Write). abi_text sa.account (until_refused sv x.1 s)) known
        ∙ verdict-text (sv.refused (write_abi sa.account json json) s) sa.account json s accepted

    -- An action whose account has an ABI in the table that reads it.
    data_of-decoded :
        (action : Action) (text : String) (abi : Abi) (abis : Serializer) (v : Variant)
        → is_empty action.bytes ≡ false
        → (str_eq action.account system_account_name && str_eq action.name "setabi") ≡ false
        → text ≢ ""
        → abi_of_json text ≡ ok abi
        → set_abi abi max_serialization_time ≡ ok abis
        → binary_to_variant abis
            (get_action_type abis action.name)
            action.bytes
            max_serialization_time
          ≡ ok v
        → (data_of c action text).0 ≡ json_of_variant v
    data_of-decoded action text abi abis v full no_set ne parse set bin =
        ground (arith, eq_iff text "")

    module _ (d : Driver) (laws : ServerLaws d sv) (self : SqlDatabase) where
      open laws use {view, answers}
      open self use {m_action_filter_on}

      record_each-Simulates :
          (actions : List Action) (id : String) (time : ℕ)
          → Simulates view (record_each d c self id time actions) (each c sv actions id time)
      unfolding record_each
      record_each-Simulates actions id time = Simulates-for_each _ _ _ (λ action.
          Simulates-bind _ _ _ _ (record_row-Simulates d c sv view answers action id time)
            (λ _. Simulates-pure tt))

      -- What the tables hold after actions of one transaction and other transactions.
      abbrev following :
          List Action → (id : String) → (time : ℕ) → List TransactionTrace → d.Db → d.Db
      following actions id time tcs s =
          after_all (consume_transaction_trace d c self) (record_each d c self id time actions s).1
            tcs

      view-following :
          (actions : List Action) (id : String) (time : ℕ) (tcs : List TransactionTrace) (s : d.Db)
          → view (following actions id time tcs s)
            ≡ after_traces c sv m_action_filter_on tcs (after_actions c sv actions id time (view s))
      view-following actions id time tcs s =
          after_traces_lem c sv d laws self tcs _
          ∙ ap (after_traces c sv m_action_filter_on tcs) (
              ap (λ (r : Result (Unit {0}) × Contents). r.1)
                ((record_each-Simulates actions id time).agrees s)
              ∙ after_actions_lem c sv actions id time (view s))

      -- What the setabi action has stored stays until the account sets another.
      following-setabi :
          (action : Action) (rest : List Action) (id : String) (time : ℕ)
          (tcs : List TransactionTrace) (sa : SetAbi) (abi : Abi) (s : d.Db)
          → is_empty action.bytes ≡ false
          → is_setabi d c action ≡ true
          → as_setabi action.bytes ≡ ok sa
          → unpack_abi sa.abi ≡ ok abi
          → sv.refused (write_abi sa.account (json_of_abi abi) (json_of_abi abi)) (view s) ≡ none
          → NoneSets sv sa.account c rest
          → NoTraceSets sv sa.account c m_action_filter_on tcs
          → abi_text sa.account (view (following (action ∷ rest) id time tcs s))
            ≡ sv.column (json_of_abi abi)
      following-setabi action rest id time tcs sa abi s full set arg un accepted none_sets
            no_trace =
          ap (abi_text sa.account) (view-following (action ∷ rest) id time tcs s)
          ∙ after_traces-Same sv sa.account c m_action_filter_on tcs _ no_trace
          ∙ unless_thrown-Same sv sa.account c (after_action c sv action id time (view s))
              (after_actions c sv rest id time)
              (λ t. after_actions-Same sv sa.account c rest id time t none_sets)
          ∙ after_action-setabi action id time sa abi (view s) full set arg un accepted

      add_data-read :
          (action : Action) (s : d.Db)
          → (add_data d c action s).0 ≡ ok (data_of c action (abi_text action.account (view s))).0
      add_data-read action s =
          ap (λ (r : Result String × Contents). r.0)
            ((add_data-Simulates d c sv view answers action).agrees s
              ∙ add_data_lem sv c action (view s))

      -- On a server that answers the statements as MySQL documents them and whose sessions can be
      -- leased and reconnected: once a setabi action with a well formed ABI has been recorded whose
      -- upsert the server does not refuse, with any further actions of its transaction and any
      -- transactions after it of which no recorded action is a setabi for the same account, add_data
      -- on an action of that account with data that this ABI reads, unless it is a setabi of the
      -- system account itself, answers the JSON text of what the ABI makes of its bytes. It is so
      -- whether or not the actions in between end in an exception. A condition is that the text that
      -- the column gives for the ABI is not empty and gives the ABI back.
      pub setabi-then-decode :
          (first second : Action) (rest : List Action) (id : String) (time : ℕ)
          (tcs : List TransactionTrace) (sa : SetAbi) (abi : Abi) (abis : Serializer) (v : Variant)
          (s : d.Db)
          → is_empty first.bytes ≡ false
          → is_setabi d c first ≡ true
          → as_setabi first.bytes ≡ ok sa
          → unpack_abi sa.abi ≡ ok abi
          → sv.refused (write_abi sa.account (json_of_abi abi) (json_of_abi abi)) (view s) ≡ none
          → NoneSets sv sa.account c rest
          → NoTraceSets sv sa.account c m_action_filter_on tcs
          → is_empty second.bytes ≡ false
          → is_setabi d c second ≡ false
          → second.account ≡ sa.account
          → sv.column (json_of_abi abi) ≢ ""
          → abi_of_json (sv.column (json_of_abi abi)) ≡ ok abi
          → set_abi abi max_serialization_time ≡ ok abis
          → binary_to_variant abis
              (get_action_type abis second.name)
              second.bytes
              max_serialization_time
            ≡ ok v
          → (let recorded = (record_each d c self id time (first ∷ rest) s).1 in
              let t = after_all (consume_transaction_trace d c self) recorded tcs in
              (add_data d c second t).0 ≡ ok (json_of_variant v))
      setabi-then-decode first second rest id time tcs sa abi abis v s full set arg un accepted
            none_sets no_trace second_full no_set own json reads set_by bin =
          let t : d.Db = following (first ∷ rest) id time tcs s in
          let stored =
            following-setabi first rest id time tcs sa abi s full set arg un accepted none_sets
              no_trace in
          let read : abi_text second.account (view t) ≡ sv.column (json_of_abi abi) =
            rw own stored in
          add_data-read second t
          ∙ ap ok (
              ap (λ text. (data_of c second text).0) read
              ∙ data_of-decoded second _ abi abis v second_full no_set json reads set_by bin)
