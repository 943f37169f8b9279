-- ===== src/Tables/Columns.antt =====
-- Which statements of accounts_table, transactions_table and blocks_table fit the tables of eos.sql.
use mathlib.Core.Bool.{false≢true}
use eos_sql_db_plugin.Base.{ℕ, String, refl, Bool}
use eos_sql_db_plugin.Chain.{BlockState}
use eos_sql_db_plugin.Schema.{Fits}
use eos_sql_db_plugin.Schema.Queries.{shape_of}
use eos_sql_db_plugin.Tables.Accounts.{accounts_replace, accounts_insert}
use eos_sql_db_plugin.Tables.Transactions.{
  Transaction, transactions_insert, transactions_irreversible,
}
use eos_sql_db_plugin.Tables.Blocks.{blocks_replace, blocks_new_producers, blocks_irreversible}

-- The inserts of accounts_table and of transactions_table fit the tables of eos.sql, whatever they
-- bind.
pub insert-Fits :
    (name abi : String) (t : Transaction)
    → Fits (accounts_replace name) × Fits (accounts_insert name abi) × Fits (transactions_insert t)
unfolding shape_of
insert-Fits name abi t = (
  record { typed = refl; by_name = refl },
  record { typed = refl; by_name = refl },
  record { typed = refl; by_name = refl },
)

-- Whatever they bind, neither the statements of blocks_table that write nor the update of
-- transactions_table fit the tables of eos.sql.
pub update_unfit :
    (b : BlockState) (time : ℕ) (new_producers block_id transaction_id : String)
    (irreversible : Bool)
    → ¬ (Fits (blocks_replace b time))
      × ¬ (Fits (blocks_new_producers new_producers block_id))
      × ¬ (Fits (blocks_irreversible block_id irreversible))
      × ¬ (Fits (transactions_irreversible block_id irreversible transaction_id))
unfolding shape_of
update_unfit b time new_producers block_id transaction_id irreversible = (
  λ f. false≢true f.typed,
  λ f. false≢true f.typed,
  λ f. false≢true f.typed,
  λ f. false≢true f.typed,
)
