-- ===== src/Database/Traversal.antt =====
-- sql_database::dfs_inline_traces against the list of the actions that it records.
use eos_sql_db_plugin.Base.{
  ℕ, String, ◌≡◌, refl, ap, sym, ◌∙◌, inl, inr, not, List, [], ◌∷◌, ◌++◌, ◌&&◌, contains, str_eq,
  if◌then◌else◌, Bool-cases,
}
use eos_sql_db_plugin.Effect.{
  Effect, pure, ◌>>=◌, ◌>>◌, for_each, bind_assoc, pure-bind, for_each-append,
}
use eos_sql_db_plugin.Sql.{Driver}
use eos_sql_db_plugin.Chain.{Action, ActionTraces, end, trace, ChainLib}
use eos_sql_db_plugin.Actions.Add.{add, record_row, add-record_row, add-skip, record_row-bind}
use eos_sql_db_plugin.Database.{SqlDatabase, no_traces, dfs_inline_traces}

-- The actions that a traversal records, in order: of the traces whose receiver is the action's own
-- account, each whose name passes the filter, and below each other one what its inline traces give.
unfoldable pub selected : List String → ActionTraces → List Action
selected filter_on end = []
selected filter_on (trace receiver act inline_traces rest) =
    let inline = selected filter_on inline_traces in
    let here = if contains act.name filter_on then act ∷ [] else inline in
    (if str_eq receiver act.account then here else []) ++ selected filter_on rest

module _ (d : Driver) (c : ChainLib) (self : SqlDatabase) (id : String) (time : ℕ) where
  open d use {Db}
  open self use {m_action_filter_on}

  unfoldable pub record_each : List Action → Effect Db (Unit {0})
  record_each actions = for_each actions (λ act. record_row d c act id time >> pure tt)

  record_each-append :
      (xs ys : List Action) → record_each (xs ++ ys) ≡ (record_each xs >> record_each ys)
  unfolding record_each
  record_each-append xs ys = for_each-append xs ys _

  -- The body of the loop for one trace, with what the recursive call does.
  visit : (receiver : String) → Action → ActionTraces → Effect Db (Unit {0}) → Effect Db (Unit {0})
  visit receiver act inline_traces inline =
      if str_eq receiver act.account
      then (add d c act id time m_action_filter_on >>= λ is_success.
          if not is_success && not (no_traces inline_traces) then inline else pure tt)
      else pure tt

  descend : (inline_traces : ActionTraces) → Effect Db (Unit {0})
  descend inline_traces =
      if not (no_traces inline_traces)
      then record_each (selected m_action_filter_on inline_traces)
      else pure tt

  descend_lem : (ts : ActionTraces) → descend ts ≡ record_each (selected m_action_filter_on ts)
  unfolding descend selected record_each for_each
  descend_lem end = refl
  descend_lem (trace receiver act inline_traces rest) = refl

  visited : (receiver : String) → Action → ActionTraces → List Action
  visited receiver act inline_traces =
      let inline = selected m_action_filter_on inline_traces in
      let here = if contains act.name m_action_filter_on then act ∷ [] else inline in
      if str_eq receiver act.account then here else []

  visit_lem :
      (receiver : String) (act : Action) (inline_traces : ActionTraces)
      → visit receiver act inline_traces (record_each (selected m_action_filter_on inline_traces))
        ≡ record_each (visited receiver act inline_traces)
  unfolding visit visited
  visit_lem receiver act inline_traces = elim (Bool-cases (str_eq receiver act.account)) [
    | inr other ↦ rw other (unfold record_each for_each in refl)
    | inl own ↦ elim (Bool-cases (contains act.name m_action_filter_on)) [
      | inl on ↦
          rw (own, on, add-record_row d c act id time m_action_filter_on on, record_row-bind d c)
            (unfold record_each for_each in simp (bind_assoc, pure-bind))
      | inr off ↦
          rw (own, off, add-skip d c act id time m_action_filter_on off, pure-bind)
            (unfold descend in descend_lem inline_traces)
    ]
  ]

module _ (d : Driver) (c : ChainLib) (self : SqlDatabase) where
  -- The traversal records exactly the selected actions, in their order, each as `add` does, and
  -- stops with the first of them that throws.
  pub dfs_inline_traces-eq-record_each :
      (traces : ActionTraces) (id : String) (time : ℕ)
      → dfs_inline_traces d c self traces id time
        ≡ record_each d c self id time (selected self.m_action_filter_on traces)
  unfolding dfs_inline_traces
  dfs_inline_traces-eq-record_each end id time = unfold record_each selected for_each in refl
  dfs_inline_traces-eq-record_each (trace receiver act inline_traces rest) id time =
      rw
        (
          dfs_inline_traces-eq-record_each inline_traces id time,
          dfs_inline_traces-eq-record_each rest id time,
        )
        (unfold visit visited selected in
          (ap (λ m. m >> record_each d c self id time (selected self.m_action_filter_on rest))
              (visit_lem d c self id time receiver act inline_traces)
            ∙ sym (
                record_each-append d c self id time
                  (visited d c self id time receiver act inline_traces)
                  (selected self.m_action_filter_on rest))))
