-- ===== src/Database/Fitting.antt =====
-- That every statement that a consume call of sql_database (sql_db_plugin/db/database.cpp) makes for a
-- trace fits the tables of eos.sql.
use eos_sql_db_plugin.Base.{ℕ, String, List, [], ◌∷◌}
use eos_sql_db_plugin.Effect.Keeps.{Keeps, Keeps-pure, Keeps-bind, Keeps-for_each}
use eos_sql_db_plugin.Sql.{Driver, Statement}
use eos_sql_db_plugin.Schema.{Fits}
use eos_sql_db_plugin.Chain.{ActionTraces, TransactionTrace, ChainLib}
use eos_sql_db_plugin.Session.Keeping.{PoolLaws, with_session-Kept}
use eos_sql_db_plugin.Actions.Issued.{record_row-Keeps}
use eos_sql_db_plugin.Actions.Fitting.{Issued-Fits}
use eos_sql_db_plugin.Consumer.Batch.{after_all}
use eos_sql_db_plugin.Database.{SqlDatabase, dfs_inline_traces, consume_transaction_trace}
use eos_sql_db_plugin.Database.Traversal.{selected, record_each, dfs_inline_traces-eq-record_each}

module _ (d : Driver) (c : ChainLib) (self : SqlDatabase) (P : d.Db → Type 0)
    (fitting : (st : Statement) → Fits st → Keeps P (d.execute st)) where
  dfs-Fitting :
      (traces : ActionTraces) (id : String) (time : ℕ)
      → Keeps P (dfs_inline_traces d c self traces id time)
  unfolding record_each
  dfs-Fitting traces id time = rw dfs_inline_traces-eq-record_each (
      Keeps-for_each (selected self.m_action_filter_on traces) _ (λ act.
        Keeps-bind _ _ (record_row-Keeps d c P (λ st i. fitting st (Issued-Fits i)) act id time)
          (λ _. Keeps-pure tt)))

  module _ (laws : PoolLaws d P) where
    pub consume_transaction_trace-Fitting :
        (tc : TransactionTrace) → Keeps P (consume_transaction_trace d c self tc)
    unfolding consume_transaction_trace
    consume_transaction_trace-Fitting tc =
        with_session-Kept d P laws _ (dfs-Fitting tc.action_traces tc.id tc.block_time)

    pub after_all-Fitting :
        (tcs : List TransactionTrace) (db : d.Db)
        → P db
        → P (after_all (consume_transaction_trace d c self) db tcs)
    unfolding after_all
    after_all-Fitting [] db h = h
    after_all-Fitting (tc ∷ tcs) db h =
        after_all-Fitting tcs _ ((consume_transaction_trace-Fitting tc).after db h)
