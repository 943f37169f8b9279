-- ===== src/Tables/Accounts.antt =====
-- accounts_table (sql_db_plugin/db/accounts_table.cpp). Each catch clause only writes to the log,
-- but for the one of `exist` that sets `amount`.
use eos_sql_db_plugin.Base.{String, Bool, [], ◌∷◌}
use eos_sql_db_plugin.Base.Int.{ℤ, pos, is_positive}
use eos_sql_db_plugin.Effect.{
  Exception, fc_exception, mysql_soci_error, std_exception, unknown, Effect, pure, lift, throws,
  try_catch, ◌>>=◌,
}
use eos_sql_db_plugin.Sql.{Driver, attempt, Statement, text, first_number}

abbrev pub accounts_replace : String → Statement
accounts_replace name = record {
  query = "REPLACE INTO accounts (name) VALUES (:name)";
  uses = text name ∷ [];
}

abbrev pub accounts_insert : String → String → Statement
accounts_insert name abi = record {
  query = "INSERT INTO accounts (name,abi) VALUES (:name,:abi)";
  uses = text name ∷ text abi ∷ [];
}

abbrev pub accounts_count : String → Statement
accounts_count name = record {
  query = "SELECT COUNT(*) FROM accounts WHERE name = :name";
  uses = text name ∷ [];
}

-- The catch clauses of `exist`: there is none for what is no std::exception.
abbrev pub exist_handler : {S : Type 0} → ℤ → Exception → Effect S ℤ
exist_handler amount mysql_soci_error = pure amount
exist_handler amount std_exception = pure (pos 0)
exist_handler amount fc_exception = lift (throws fc_exception)
exist_handler amount unknown = lift (throws unknown)

module _ (d : Driver) where
  open d use {Db, execute}

  unfoldable pub add : String → Effect Db (Unit {0})
  add name = attempt d (accounts_replace name)

  unfoldable pub add_eosio : String → String → Effect Db (Unit {0})
  add_eosio name abi = attempt d (accounts_insert name abi)

  -- `uninitialised` is what the stack holds where `int amount;` stands.
  unfoldable pub exist : ℤ → String → Effect Db Bool
  exist uninitialised name = do
    amount ←
        try_catch (execute (accounts_count name) >>= λ r. pure (first_number uninitialised r.rows))
          (exist_handler uninitialised)
    pure (is_positive amount)
