-- ===== src/Plugin/Fresh.antt =====
-- The row of the system account in the table accounts over a start of the plugin
-- (sql_db_plugin/sql_db_plugin.cpp).
use eos_sql_db_plugin.Base.{
  ℕ, zero, suc, String, ◌≡◌, refl, Bool, true, false, some, ◌≢◌, str_eq, eq_iff, Bool-cases, inl,
  inr, List, ◌==◌, if◌then◌else◌,
}
use eos_sql_db_plugin.Base.Int.{ℤ, pos, is_positive}
use eos_sql_db_plugin.Effect.{ok, pure, ◌>>=◌}
use eos_sql_db_plugin.Effect.Keeps.{keeps_rules}
use eos_sql_db_plugin.Effect.Hoare.{Triple, Triple-Keeps, Triple-pure, Triple-bind, Triple-given}
use eos_sql_db_plugin.Sql.{of_sql_db, of_db_blocks, Pools, driver}
use eos_sql_db_plugin.Chain.{ChainLib}
use eos_sql_db_plugin.Database.{SqlDatabase, wipe}
use eos_sql_db_plugin.Plugin.{
  Boost, VariablesMap, SqlDbPluginImpl, start_with, plugin_initialize, split_option,
}
use eos_sql_db_plugin.Database.Started.{
  inserted, AccountsLaws, is_started-Triple, wipe-Triple, sql_database-Triple,
  sql_database_filtered-Triple,
}

-- The rows of the system account after a start from the block `start`, by whether its ABI is accepted.
abbrev pub rows_after : (start : ℕ) (accepted : Bool) (rows : ℕ) → ℕ
rows_after start accepted zero = if start == 0 then inserted accepted 0 else 0
rows_after start accepted (suc n) = suc n

not_empty : (s : String) → s ≢ "" → str_eq s "" ≡ false
not_empty s full = elim (Bool-cases (str_eq s "")) [
  | inl e ↦ absurd (full ((eq_iff s "").0 e))
  | inr e ↦ e
]

module _ (ps : Pools) (c : ChainLib) (rows_of : ps.Db → String → ℕ)
    (own_laws : AccountsLaws (driver ps of_sql_db) rows_of)
    (laws : AccountsLaws (driver ps of_db_blocks) rows_of) where
  abbrev own_abi : Bool
  own_abi = laws.accepts (c.json_of_abi c.eosio_contract_abi)

  abbrev HasSystem : ℕ → ps.Db → Type 0
  HasSystem n s = rows_of s c.system_account_name ≡ n

  resync-Triple :
      (self : SqlDatabase) (resync : Bool)
      → self.system_account ≡ c.system_account_name
      → Triple
          (HasSystem 0)
          (if resync then wipe (driver ps of_db_blocks) c self else pure tt)
          (λ _. HasSystem (if resync then inserted own_abi 0 else 0))
  resync-Triple self true own = λ s s' a p e.
      (wipe-Triple (driver ps of_db_blocks) rows_of laws c.system_account_name c self own 0 s s' a p
        e).1
  resync-Triple self false own = Triple-pure tt _ (λ s h. h)

  wiped-Triple :
      (self : SqlDatabase) (start n : ℕ) (started : Bool)
      → self.system_account ≡ c.system_account_name
      → started ≡ is_positive (pos n)
      → Triple
          (HasSystem n)
          (if started
            then pure tt
            else if start == 0
            then wipe (driver ps of_db_blocks) c self
            else pure tt)
          (λ _. HasSystem (rows_after start own_abi n))
  wiped-Triple self start zero started own e = rw e (resync-Triple self (start == 0) own)
  wiped-Triple self start (suc n) started own e = rw e (Triple-pure tt _ (λ s h. h))

  start_with-Triple :
      (out on : List String) (uri : String) (start queue_size n : ℕ) (uninitialised : ℤ)
      (chain_plug : Bool)
      → Triple
          (HasSystem n)
          (start_with ps c out on uri start queue_size uninitialised chain_plug)
          (λ _. HasSystem (rows_after start own_abi n))
  unfolding start_with
  start_with-Triple out on uri start queue_size n uninitialised chain_plug =
      let name = c.system_account_name in
      let blocks = driver ps of_db_blocks in
      Triple-bind _ (λ self s. (self.system_account ≡ name) × HasSystem n s) _
        (λ sql_db. Triple-given _ _ (λ _.
          Triple-bind _ (λ self s. (self.system_account ≡ name) × HasSystem n s) _
            (λ db_blocks. Triple-given _ _ (λ own.
              Triple-bind _ (λ started s. (started ≡ is_positive (pos n)) × HasSystem n s) _
                (λ started. Triple-given _ _ (λ known.
                  Triple-bind _ (λ _. HasSystem (rows_after start own_abi n)) _
                    (λ wiped. Triple-Keeps _ (search keeps_rules)) _
                    (wiped-Triple db_blocks start n started own known)))
                _ (is_started-Triple blocks rows_of laws name c db_blocks own n uninitialised)))
            _ (sql_database_filtered-Triple blocks rows_of laws name c n uri start 5 on out)))
        _ (sql_database-Triple (driver ps of_sql_db) rows_of own_laws name c n uri start 1)

  -- With a server that executes the statements on accounts as MySQL documents them, which refuses a
  -- second row of a name and a text that its column abi does not accept: where the start returns with
  -- a URI that is not empty, the system account has as many rows as before, but for the one that a
  -- start from block 0 adds where there was none and the server accepts the system account's ABI. So
  -- a second start adds none.
  pub plugin_initialize-rows_after :
      (boost : Boost) (options : VariablesMap) (uri : String) (uninitialised : ℤ)
      (chain_plug : Bool) (s s' : ps.Db) (my : SqlDbPluginImpl)
      → options.uri ≡ some uri
      → uri ≢ ""
      → plugin_initialize ps c boost options uninitialised chain_plug s ≡ (ok my, s')
      → rows_of s' c.system_account_name
        ≡ rows_after options.block_start
            (laws.accepts (c.json_of_abi c.eosio_contract_abi))
            (rows_of s c.system_account_name)
  unfolding plugin_initialize ◌>>=◌
  plugin_initialize-rows_after boost options uri uninitialised chain_plug s s' my given full e =
      let no_test : str_eq uri "" ≡ false = not_empty uri full in
      let name = c.system_account_name in
      let out = split_option boost options.contract_filter_out in
      let on = split_option boost options.action_filter_on in
      start_with-Triple out on uri options.block_start options.queue_size (rows_of s name)
        uninitialised chain_plug s s' my refl (rw (given, no_test) at e)
