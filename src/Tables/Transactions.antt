-- ===== src/Tables/Transactions.antt =====
-- transactions_table (sql_db_plugin/db/transactions_table.cpp).
use eos_sql_db_plugin.Base.{ℕ, String, Bool, [], ◌∷◌, if◌then◌else◌}
use eos_sql_db_plugin.Base.Int.{ℤ, pos, is_positive}
use eos_sql_db_plugin.Effect.{
  Exception, fc_exception, mysql_soci_error, std_exception, unknown, Effect, pure, try_catch, ◌>>=◌,
}
use eos_sql_db_plugin.Sql.{Driver, attempt, Statement, text, number, first_number}

-- What `add` reads of a chain::transaction; `id` is id().str().
pub record Transaction : Type 0 where
  pub id : String
  pub expiration : ℕ
  pub ref_block_num : ℕ
  pub ref_block_prefix : ℕ
  pub total_actions : ℕ

abbrev pub transactions_insert : Transaction → Statement
transactions_insert t = record {
  query =
      "INSERT INTO transactions(id, ref_block_num, ref_block_prefix, expiration, pending, created_at, updated_at, num_actions) VALUES (:id, :rbi, :rb, FROM_UNIXTIME(:ex), :pe, FROM_UNIXTIME(:ca), FROM_UNIXTIME(:ua), :na)";
  uses =
      text t.id
      ∷ number (pos t.ref_block_num)
      ∷ number (pos t.ref_block_prefix)
      ∷ number (pos t.expiration)
      ∷ number (pos 0)
      ∷ number (pos t.expiration)
      ∷ number (pos t.expiration)
      ∷ number (pos t.total_actions)
      ∷ [];
}

abbrev pub transactions_irreversible : String → Bool → String → Statement
transactions_irreversible block_id irreversible transaction_id = record {
  query =
      "UPDATE transactions SET block_id = :block_id, irreversible = :irreversible WHERE id = :id ";
  uses = text block_id ∷ number (if irreversible then pos 1 else pos 0) ∷ text transaction_id ∷ [];
}

abbrev pub transactions_count : String → Statement
transactions_count transaction_id = record {
  query = "SELECT COUNT(*) FROM transactions WHERE id = :id";
  uses = text transaction_id ∷ [];
}

-- The catch clauses of `find_transaction`: one that only logs, and one for all else.
abbrev pub find_handler : {S : Type 0} → ℤ → Exception → Effect S ℤ
find_handler amount mysql_soci_error = pure amount
find_handler amount fc_exception = pure (pos 0)
find_handler amount std_exception = pure (pos 0)
find_handler amount unknown = pure (pos 0)

module _ (d : Driver) where
  open d use {Db, execute}

  unfoldable pub add : Transaction → Effect Db (Unit {0})
  add t = attempt d (transactions_insert t)

  unfoldable pub irreversible_set : String → Bool → String → Effect Db (Unit {0})
  irreversible_set block_id irreversible transaction_id =
      attempt d (transactions_irreversible block_id irreversible transaction_id)

  -- `uninitialised` is what the stack holds where `int amount;` stands.
  unfoldable pub find_transaction : ℤ → String → Effect Db Bool
  find_transaction uninitialised transaction_id = do
    amount ←
        try_catch
          (execute (transactions_count transaction_id) >>= λ r.
            pure (first_number uninitialised r.rows))
          (find_handler uninitialised)
    pure (is_positive amount)
