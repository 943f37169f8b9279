-- ===== src/Contents/Traces.antt =====
-- What the consume calls of sql_database (sql_db_plugin/db/database.cpp) for traces make of the
-- contents of the tables.
use eos_sql_db_plugin.Base.{ℕ, String, ◌≡◌, refl, ap, ◌∙◌, true, List, [], ◌∷◌}
use eos_sql_db_plugin.Effect.{
  Result, ok, throws, Effect, pure, lift, try_catch, ◌>>=◌, ◌>>◌, for_each, continued,
}
use eos_sql_db_plugin.Effect.Simulates.{
  Simulates, Simulates-pure, Simulates-bind, Simulates-for_each,
}
use eos_sql_db_plugin.Sql.{Driver, attempt}
use eos_sql_db_plugin.Chain.{Action, SystemContractArg, TransactionTrace, ChainLib}
use eos_sql_db_plugin.Actions.Statements.{actions_insert}
use eos_sql_db_plugin.Actions.Parse.{parse_actions}
use eos_sql_db_plugin.Actions.Add.{record_row}
use eos_sql_db_plugin.Database.{SqlDatabase, consume_transaction_trace}
use eos_sql_db_plugin.Database.Traversal.{selected, record_each, dfs_inline_traces-eq-record_each}
use eos_sql_db_plugin.Consumer.Batch.{after_all}
use eos_sql_db_plugin.Contents.{Contents, Server}
use eos_sql_db_plugin.Contents.Reference.{reference, command_of, lookup}
use eos_sql_db_plugin.Contents.Laws.{ServerLaws, with_session-Simulates}
use eos_sql_db_plugin.Contents.Simulation.{record_row-Simulates}
use eos_sql_db_plugin.Contents.Actions.{row_of, after_row, after_action}
use eos_sql_db_plugin.Contents.Recording.{add_data_lem}
use eos_sql_db_plugin.Contents.Writes.{attempt_lem}
use eos_sql_db_plugin.Contents.Parsing.{parse_actions_lem}

-- What comes after an action: nothing, where an exception came of it.
abbrev pub unless_thrown : Result (Unit {0}) × Contents → (Contents → Contents) → Contents
unless_thrown (ok a, s) following = following s
unless_thrown (throws e, s) following = s

module _ (c : ChainLib) (sv : Server) where
  -- Actions of one transaction, up to the first that ends in an exception.
  abbrev pub after_actions : List Action → (id : String) → (time : ℕ) → Contents → Contents
  after_actions [] id time s = s
  after_actions (action ∷ actions) id time s =
      unless_thrown (after_action c sv action id time s) (after_actions actions id time)

  -- One transaction after another.
  abbrev pub after_traces : (filter_on : List String) → List TransactionTrace → Contents → Contents
  after_traces filter_on [] s = s
  after_traces filter_on (tc ∷ tcs) s =
      after_traces filter_on tcs
        (after_actions (selected filter_on tc.action_traces) tc.id tc.block_time s)

  abbrev ref : Driver
  ref = reference sv

  row_lem :
      (action : Action) (id : String) (time : ℕ) (json : String) (r : Result SystemContractArg)
      (s : Contents)
      → ((lift r >>= λ arg.
              attempt ref (
                actions_insert action
                  (c.sec_since_epoch time)
                  json
                  (c.json_of_authorization action.authorization)
                  id
                  arg)
              >> (try_catch (parse_actions ref c action) (λ _. pure tt) >> pure true))
            >> pure tt)
          s
        ≡ after_row c sv action id time json r s
  unfolding ◌>>=◌ command_of lookup
  row_lem action id time json (ok arg) s =
      rw
        (
          attempt_lem sv
              (actions_insert action (c.sec_since_epoch time) json
                (c.json_of_authorization action.authorization) id arg)
              (row_of c action id time json arg) s refl,
          parse_actions_lem sv c action,
        )
        refl
  row_lem action id time json (throws e) s = refl

  record_row_lem :
      (action : Action) (id : String) (time : ℕ) (s : Contents)
      → (record_row ref c action id time >> pure tt) s ≡ after_action c sv action id time s
  unfolding record_row ◌>>=◌
  record_row_lem action id time s =
      rw (add_data_lem sv c action s) (unfold ◌>>=◌ in row_lem action id time _ _ _)

  following_lem :
      (r : Result (Unit {0}) × Contents) (m : Effect Contents (Unit {0}))
      (following : Contents → Contents)
      → ((s : Contents) → (m s).1 ≡ following s)
      → (continued r (λ _. m)).1 ≡ unless_thrown r following
  following_lem (ok a, s) m following h = h s
  following_lem (throws e, s) m following h = refl

  abbrev pub each : List Action → String → ℕ → Effect Contents (Unit {0})
  each actions id time = for_each actions (λ action. record_row ref c action id time >> pure tt)

  each_step :
      (action : Action) (actions : List Action) (id : String) (time : ℕ) (s : Contents)
      (following : Contents → Contents)
      → ((t : Contents) → (each actions id time t).1 ≡ following t)
      → (each (action ∷ actions) id time s).1
        ≡ unless_thrown (after_action c sv action id time s) following
  unfolding for_each
  each_step action actions id time s following h =
      unfold ◌>>=◌ in
      (ap (λ r. (continued r (λ _. each actions id time)).1) (record_row_lem action id time s)
        ∙ following_lem (after_action c sv action id time s) (each actions id time) following h)

  pub after_actions_lem :
      (actions : List Action) (id : String) (time : ℕ) (s : Contents)
      → (each actions id time s).1 ≡ after_actions actions id time s
  after_actions_lem [] id time s = unfold for_each pure in refl
  after_actions_lem (action ∷ actions) id time s =
      each_step action actions id time s (after_actions actions id time)
        (after_actions_lem actions id time)

  module _ (d : Driver) (laws : ServerLaws d sv) (self : SqlDatabase) where
    open laws use {view, answers, pool}
    open self use {m_action_filter_on}

    consume_transaction_trace-Simulates :
        (tc : TransactionTrace)
        → Simulates view
            (consume_transaction_trace d c self tc)
            (each (selected m_action_filter_on tc.action_traces) tc.id tc.block_time)
    unfolding consume_transaction_trace record_each
    consume_transaction_trace-Simulates tc = with_session-Simulates d view pool _ _ (
        rw dfs_inline_traces-eq-record_each (
          Simulates-for_each _ _ _ (λ action.
            Simulates-bind _ _ _ _
              (record_row-Simulates d c sv view answers action tc.id tc.block_time)
              (λ _. Simulates-pure tt))))

    pub after_traces_lem :
        (tcs : List TransactionTrace) (s : d.Db)
        → view (after_all (consume_transaction_trace d c self) s tcs)
          ≡ after_traces m_action_filter_on tcs (view s)
    unfolding after_all
    after_traces_lem [] s = refl
    after_traces_lem (tc ∷ tcs) s =
        after_traces_lem tcs (consume_transaction_trace d c self tc s).1
        ∙ ap (after_traces m_action_filter_on tcs) (
            ap (λ (r : Result (Unit {0}) × Contents). r.1)
              ((consume_transaction_trace-Simulates tc).agrees s)
            ∙ after_actions_lem (selected m_action_filter_on tc.action_traces) tc.id tc.block_time
                (view s))
