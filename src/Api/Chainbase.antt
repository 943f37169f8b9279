-- ===== src/Api/Chainbase.antt =====
-- Reading the chain's own database: get_abi, get_table_type and walk_key_value_table of
-- sql_db_plugin/sql_db_plugin.cpp. The database and the asset type are the node's, so they are a
-- parameter, `Chainbase`.
use eos_sql_db_plugin.Base.{
  ℕ, String, Bool, Option, none, some, List, [], ◌∷◌, str_eq, if◌then◌else◌,
}
use eos_sql_db_plugin.Base.Int.{ℤ}
use eos_sql_db_plugin.Effect.{Result, ok, throws, fc_exception, Effect, pure, ◌>>=◌}
use eos_sql_db_plugin.Chain.{Asset}

-- A table of an abi_def, by what is read of it.
pub record TableDef : Type 0 where
  pub name : String
  pub index_type : String

pub record Chainbase : Type 1 where
  -- abi_def, and its tables
  pub AbiDef : Type 0
  pub tables_of : AbiDef → List TableDef
  -- find<account_object, by_name>: the bytes of the account's ABI
  pub find_account : String → Option (List ℕ)
  -- abi_serializer::to_abi(bytes, abi), with a default abi before: the abi after the call, and the
  -- answer
  pub to_abi : List ℕ → Result (AbiDef × Bool)
  -- find<table_id_object, by_code_scope_table>: the id of the table
  pub find_table : (code scope table : String) → Option ℕ
  -- the values of key_value_index between the lower bounds of the id and of the id after it
  pub rows_of : ℕ → List (List ℕ)
  -- sizeof(asset), fc::raw::unpack, get_symbol().valid()
  pub sizeof_asset : ℕ
  pub unpack_asset : List ℕ → Result Asset
  pub symbol_valid : Asset → Bool
  -- asset(0, symbol(string_to_symbol(precision, name)))
  pub zero_asset : (precision : ℕ) → String → Result Asset
  -- asset::precision(), fc::to_string of an int64_t
  pub precision_of : Asset → ℕ
  pub to_string : ℤ → String

module _ (db : Chainbase) where
  open db use {AbiDef, find_account, to_abi}

  abi_of_account : Option (List ℕ) → Result AbiDef
  abi_of_account none = throws fc_exception
  abi_of_account (some bytes) = elim (to_abi bytes) [
    | throws e ↦ throws e
    | ok (abi, done) ↦ ok abi
  ]

  unfoldable pub get_abi : String → Result AbiDef
  unfolding abi_of_account
  get_abi account = abi_of_account (find_account account)

-- The loop over abi.tables; a name that is not there fails the EOS_ASSERT below it.
unfoldable pub get_table_type : List TableDef → String → Result String
get_table_type [] table_name = throws fc_exception
get_table_type (t ∷ tables) table_name =
    if str_eq t.name table_name then ok t.index_type else get_table_type tables table_name

-- The loop of walk_key_value_table: it ends with the first row for which `f` answers false.
unfoldable pub walk_rows :
    {S : Type 0} → List (List ℕ) → (List ℕ → Effect S Bool) → Effect S (Unit {0})
walk_rows [] f = pure tt
walk_rows (row ∷ rows) f = f row >>= λ more. if more then walk_rows rows f else pure tt

unfoldable pub walk_table :
    {S : Type 0}
    → Chainbase
    → Option ℕ
    → (List ℕ → Effect S Bool)
    → Effect S (Unit {0})
    → Effect S (Unit {0})
walk_table db none f f2 = f2
walk_table db (some t_id) f f2 = walk_rows (db.rows_of t_id) f

unfoldable pub walk_key_value_table :
    {S : Type 0}
    → Chainbase
    → (code scope table : String) → (List ℕ → Effect S Bool)
    → Effect S (Unit {0})
    → Effect S (Unit {0})
unfolding walk_table
walk_key_value_table db code scope table f f2 = walk_table db (db.find_table code scope table) f f2
