-- ===== src/Tables/Answers.antt =====
-- What the calls of accounts_table, transactions_table and blocks_table answer, errors included.
use eos_sql_db_plugin.Base.{ℕ, zero, suc, String, ◌≡◌, Bool, true, false, arith}
use eos_sql_db_plugin.Base.Int.{ℤ, pos}
use eos_sql_db_plugin.Effect.{mysql_soci_error, ok, throws, ◌>>=◌}
use eos_sql_db_plugin.Sql.{Driver, Reply, first_number}
use eos_sql_db_plugin.Tables.Accounts
use eos_sql_db_plugin.Tables.Accounts.{accounts_count, exist_handler}
use eos_sql_db_plugin.Tables.Transactions
use eos_sql_db_plugin.Tables.Transactions.{transactions_count, find_handler}
use eos_sql_db_plugin.Tables.Blocks
use eos_sql_db_plugin.Tables.Blocks.{blocks_irreversible, blocks_count_reversible}
use eos_sql_db_plugin.Chain.{ChainLib}

-- A number whose sign gives the answer.
abbrev witness_of : Bool → ℤ
witness_of true = pos 1
witness_of false = pos 0

module _ (d : Driver) where
  -- After a MySQL error the answer of `exist` is whatever the uninitialised `amount` makes it: each
  -- answer comes from some value of it.
  pub exist_undefined :
      (name : String) (s s' : d.Db)
      → d.execute (accounts_count name) s ≡ (throws mysql_soci_error, s')
      → (answer : Bool)
      → (uninitialised : ℤ) × (Accounts.exist d uninitialised name s ≡ (ok answer, s'))
  unfolding Accounts.exist ◌>>=◌
  exist_undefined name s s' h true = (pos 1, ground arith)
  exist_undefined name s s' h false = (pos 0, ground arith)

  -- After a MySQL error the answer of `find_transaction` is whatever the uninitialised `amount`
  -- makes it: each answer comes from some value of it.
  pub find_transaction_undefined :
      (id : String) (s s' : d.Db)
      → d.execute (transactions_count id) s ≡ (throws mysql_soci_error, s')
      → (answer : Bool)
      → (uninitialised : ℤ) × (Transactions.find_transaction d uninitialised id s ≡ (ok answer, s'))
  unfolding Transactions.find_transaction ◌>>=◌
  find_transaction_undefined id s s' h true = (pos 1, ground arith)
  find_transaction_undefined id s s' h false = (pos 0, ground arith)

  -- Where neither the update nor the count throws, and the count is not negative, the answer of
  -- `irreversible_set` is true: also for a block that is not in the table, whose count is 0.
  pub irreversible_set-true :
      (c : ChainLib) (id : String) (irreversible : Bool) (s s' t : d.Db) (r q : Reply) (n : ℕ)
      → d.execute (blocks_irreversible id irreversible) s ≡ (ok r, s')
      → d.execute (blocks_count_reversible id) s' ≡ (ok q, t)
      → first_number (pos 0) q.rows ≡ pos n
      → (Blocks.irreversible_set d c id irreversible s).0 ≡ ok true
  unfolding Blocks.irreversible_set Blocks.recount ◌>>=◌
  irreversible_set-true c id irreversible s s' t r q zero h hq hn = ground arith
  irreversible_set-true c id irreversible s s' t r q (suc n) h hq hn = ground arith
