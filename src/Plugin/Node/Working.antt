-- ===== src/Plugin/Node/Working.antt =====
-- Steps of the worker of the traces (run_traces of sql_db_plugin/consumer.hpp) in a running node.
use eos_sql_db_plugin.Base.{ℕ, ◌≡◌, refl, true, some}
use eos_sql_db_plugin.Sql.{Driver}
use eos_sql_db_plugin.Chain.{ChainLib}
use eos_sql_db_plugin.Database.{SqlDatabase}
use eos_sql_db_plugin.Consumer.Channel.{work}
use eos_sql_db_plugin.Consumer.System.{on_traces}
use eos_sql_db_plugin.Plugin.Node.{Node, thread_step, Run, thread}

module _ (d : Driver) (c : ChainLib) (self : SqlDatabase) (queue_size : ℕ) where
  -- Steps of the worker of the traces in a row.
  pub data ByWorker : Node d.Db → Node d.Db → Type 0 where
    no_step : {n : Node d.Db} → ByWorker n n
    step_then :
        {n m o : Node d.Db}
        → thread_step d c self queue_size (on_traces true work) n ≡ some m
        → ByWorker m o
        → ByWorker n o

  pub Run-ByWorker :
      {n m o : Node d.Db} (start : ℕ)
      → Run d c self queue_size start n m
      → ByWorker m o
      → Run d c self queue_size start n o
  Run-ByWorker start r no_step = r
  Run-ByWorker start r (step_then h q) =
      Run-ByWorker start (thread (on_traces true work) refl r h) q
