-- ===== src/Plugin/Pipeline.antt =====
-- The consumer (sql_db_plugin/consumer.hpp) with the database that plugin_initialize gives it.
use mathlib.Core.List.{append-nil}
use eos_sql_db_plugin.Base.{ℕ, ◌≡◌, arith}
use eos_sql_db_plugin.Effect.{ok}
use eos_sql_db_plugin.Sql.{Driver}
use eos_sql_db_plugin.Chain.{TransactionTrace, BlockState, ChainLib}
use eos_sql_db_plugin.Database.{SqlDatabase, consume_transaction_trace}
use eos_sql_db_plugin.Consumer.Channel.{Channel, asleep, idle}
use eos_sql_db_plugin.Consumer.Invariant.{Inv}
use eos_sql_db_plugin.Consumer.System.{Consumer, Reach, initial}
use eos_sql_db_plugin.Consumer.Safety.{Reach-IsSafe}
use eos_sql_db_plugin.Consumer.Batch.{process, after_all, process-eq-after_all}

pub resting-consumed :
    {E : Type 0} (ch : Channel E)
    → Inv ch
    → ch.worker ≡ asleep
    → ch.producer ≡ idle
    → ch.consumed ≡ ch.pushed
resting-consumed ch v w p = ground (arith, append-nil ch.consumed)

-- Whenever the worker of the traces sleeps and no push is under way, under every schedule, the
-- consume calls made so far have left the database as one round over all the traces pushed would, in
-- the order of the pushes.
pub resting_database :
    (d : Driver) (c : ChainLib) (self : SqlDatabase) (queue_size : ℕ)
    (s : Consumer BlockState TransactionTrace) (db : d.Db)
    → Reach queue_size initial s
    → s.traces.worker ≡ asleep
    → s.traces.producer ≡ idle
    → process (consume_transaction_trace d c self) s.traces.pushed db
      ≡ (ok tt, after_all (consume_transaction_trace d c self) db s.traces.consumed)
resting_database d c self queue_size s db r w p =
    rw (resting-consumed s.traces (Reach-IsSafe queue_size r).traces w p)
      (process-eq-after_all (consume_transaction_trace d c self) s.traces.pushed db)
