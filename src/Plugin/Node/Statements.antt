-- ===== src/Plugin/Node/Statements.antt =====
-- Which statements a running node gives to the database.
use eos_sql_db_plugin.Base.{ℕ, sym, subst}
use eos_sql_db_plugin.Effect.Keeps.{Keeps}
use eos_sql_db_plugin.Sql.{Driver, Statement}
use eos_sql_db_plugin.Schema.{Fits}
use eos_sql_db_plugin.Chain.{ChainLib}
use eos_sql_db_plugin.Session.Keeping.{PoolLaws}
use eos_sql_db_plugin.Database.{SqlDatabase}
use eos_sql_db_plugin.Database.Fitting.{after_all-Fitting}
use eos_sql_db_plugin.Plugin.Node.{Node, started, Run}
use eos_sql_db_plugin.Plugin.Node.Order.{Run-consumed}

-- In every run of the node, with the pool left alone: a property of the database that the driver keeps
-- under statements that fit the tables of eos.sql holds at any time if it held at the start. So the
-- threads give the driver no other statement: the table of each exists, with the columns that it lists
-- and those of its placeholders, an INSERT has a value for each column that it lists, each placeholder
-- has a value of its column's kind, and placeholders of one name have one value.
pub Run-Fits :
    (d : Driver) (c : ChainLib) (self : SqlDatabase) (queue_size start : ℕ) (db : d.Db)
    (P : d.Db → Type 0) (n : Node d.Db)
    → ((st : Statement) → Fits st → Keeps P (d.execute st))
    → PoolLaws d P
    → P db
    → Run d c self queue_size start (started db) n
    → P n.db
Run-Fits d c self queue_size start db P n fitting laws h r =
    subst P (sym (Run-consumed d c self queue_size start db n r).0)
      (after_all-Fitting d c self P fitting laws n.consumer.traces.consumed db h)
