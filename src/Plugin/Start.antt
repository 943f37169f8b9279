-- ===== src/Plugin/Start.antt =====
-- How plugin_initialize of sql_db_plugin.cpp ends by the option sql_db-uri, and which transactions the
-- handler of the signal passes on.
use mathlib.Core.Bool.{false≢true}
use eos_sql_db_plugin.Base.{
  ℕ, String, ◌≡◌, refl, sym, ap, ◌∙◌, ◌≢◌, ◌⊎◌, inl, inr, ◌≤◌, ◌↔◌, Bool, true, false, Option, none,
  some, List, [], ◌∷◌, str_eq, eq_iff, arith, if◌then◌else◌,
}
use eos_sql_db_plugin.Base.Int.{ℤ}
use eos_sql_db_plugin.Effect.{ok, throws, fc_exception, std_exception, Effect, pure, lift, ◌>>=◌}
use eos_sql_db_plugin.Effect.Yields.{Yields, Yields-pure, Yields-bind, Yields-then}
use eos_sql_db_plugin.Sql.{Pools, Driver}
use eos_sql_db_plugin.Chain.{TransactionTrace, ChainLib}
use eos_sql_db_plugin.Consumer.Channel.{call}
use eos_sql_db_plugin.Plugin.{
  Boost, VariablesMap, split_option, is_onblock, on_applied_transaction, plugin_initialize,
  start_with, option_at, SqlDbPluginImpl,
}
use eos_sql_db_plugin.Database.{SqlDatabase, sql_database, sql_database_filtered}

-- The plugin listens from the block `start` and stores over a queue with `sql_db`, or does neither.
abbrev pub IsEnabled : (sql_db : SqlDatabase) → (start queue_size : ℕ) → SqlDbPluginImpl → Type 0
IsEnabled sql_db start queue_size impl =
    (own : SqlDatabase) × (impl.chain_plug ≡ true)
    × (impl.sql_db ≡ some own)
    × (impl.handler ≡ some (sql_db, queue_size))
    × (impl.applied_transaction_connection ≡ some start)

abbrev pub IsDisabled : SqlDbPluginImpl → Type 0
IsDisabled impl =
    (impl.chain_plug ≡ false)
    × (impl.sql_db ≡ none)
    × (impl.handler ≡ none)
    × (impl.applied_transaction_connection ≡ none)

-- The database of a consumer with the given first block and lists.
abbrev pub database_for : ChainLib → (block_num_start : ℕ) → (on out : List String) → SqlDatabase
database_for c block_num_start on out = record {
  system_account = c.system_account_name;
  m_block_num_start = block_num_start;
  m_action_filter_on = on;
  m_contract_filter_out = out;
}

sql_database_filtered-returned :
    (d : Driver) (c : ChainLib) (uri : String) (start pool_size : ℕ) (on out : List String)
    → Yields
        (λ db. db ≡ database_for c start on out)
        (sql_database_filtered d c uri start pool_size on out)
unfolding sql_database_filtered sql_database
sql_database_filtered-returned d c uri start pool_size on out =
    Yields-then _ (λ db. db ≡ database_for c start [] []) _ _
      (Yields-bind _ _ _ (λ opened. Yields-pure _ _ refl)) (λ db e. Yields-pure _ _ (rw e refl))

module _ (ps : Pools) (c : ChainLib) (boost : Boost) (options : VariablesMap) where
  -- Without the option sql_db-uri the start fails with std::out_of_range, before any call of the
  -- database; it does not leave the plugin disabled.
  pub plugin_initialize_no_uri :
      (uninitialised : ℤ) (chain_plug : Bool) (s : ps.Db)
      → options.uri ≡ none
      → plugin_initialize ps c boost options uninitialised chain_plug s ≡ (throws std_exception, s)
  unfolding plugin_initialize ◌>>=◌
  plugin_initialize_no_uri uninitialised chain_plug s h = ground arith

  checked-Enabled :
      (out : List String) (own sql_db wanted : SqlDatabase) (queue_size start : ℕ)
      (chain_plug : Bool)
      → sql_db ≡ wanted
      → Yields {S = ps.Db} (IsEnabled wanted start queue_size) (
          (if chain_plug then pure tt else lift (throws fc_exception)) >>= λ _. pure (record {
            chain_plug = chain_plug;
            contract_filter_out = out;
            sql_db = some own;
            handler = some (sql_db, queue_size);
            applied_transaction_connection = some start;
          }))
  unfolding ◌>>=◌
  checked-Enabled out own sql_db wanted queue_size start true e s s' a h =
      Yields-pure (IsEnabled wanted start queue_size) _
        (own, refl, refl, ap (λ (x : SqlDatabase). some (x, queue_size)) e, refl) s s' a h
  checked-Enabled out own sql_db wanted queue_size start false e s s' a h = cc

  start_with-Enabled :
      (out on : List String) (uri : String) (start queue_size : ℕ) (uninitialised : ℤ)
      (chain_plug : Bool)
      → Yields
          (IsEnabled (database_for c start on out) start queue_size)
          (start_with ps c out on uri start queue_size uninitialised chain_plug)
  unfolding start_with
  start_with-Enabled out on uri start queue_size uninitialised chain_plug =
      Yields-bind _ _ _ (λ own.
        Yields-then _ _ _ _ (sql_database_filtered-returned _ c uri start 5 on out) (λ db_blocks e.
          Yields-bind _ _ _ (λ started. Yields-bind _ _ _ (λ wiped.
            checked-Enabled out own db_blocks (database_for c start on out) queue_size start
              chain_plug e))))

  -- The database that the options describe.
  abbrev pub configured : SqlDatabase
  configured =
      database_for c options.block_start (split_option boost options.action_filter_on)
        (split_option boost options.contract_filter_out)

  abbrev disabled : SqlDbPluginImpl
  disabled = record {
    chain_plug = false;
    contract_filter_out = split_option boost options.contract_filter_out;
    sql_db = none;
    handler = none;
    applied_transaction_connection = none;
  }

  -- The part of plugin_initialize from the look-up of the URI on.
  by_uri : Option String → (String → Effect ps.Db SqlDbPluginImpl) → Effect ps.Db SqlDbPluginImpl
  by_uri uri start =
      lift (option_at uri) >>= λ uri_str. if str_eq uri_str "" then pure disabled else start uri_str

  by_test :
      (empty : Bool) (start : Effect ps.Db SqlDbPluginImpl) (s s' : ps.Db) (impl : SqlDbPluginImpl)
      → Yields (IsEnabled configured options.block_start options.queue_size) start
      → (if empty then pure disabled else start) s ≡ (ok impl, s')
      → ((empty ≡ true) × IsDisabled impl × (s' ≡ s))
        ⊎ ((empty ≡ false) × IsEnabled configured options.block_start options.queue_size impl)
  unfolding pure
  by_test true start s s' impl y h =
      inl (refl, (ground arith, ground arith, ground arith, ground arith), cc)
  by_test false start s s' impl y h = inr (refl, y s s' impl h)

  by_uri-returned :
      (uri : Option String) (start : String → Effect ps.Db SqlDbPluginImpl) (s s' : ps.Db)
      (impl : SqlDbPluginImpl)
      → ((u : String)
          → Yields (IsEnabled configured options.block_start options.queue_size) (start u))
      → by_uri uri start s ≡ (ok impl, s')
      → ((uri ≡ some "") × IsDisabled impl × (s' ≡ s))
        ⊎ ((u : String) × (uri ≡ some u)
            × (u ≢ "")
            × IsEnabled configured options.block_start options.queue_size impl)
  unfolding by_uri ◌>>=◌
  by_uri-returned none start s s' impl y h = cc
  by_uri-returned (some u) start s s' impl y h =
      elim (by_test (str_eq u "") (start u) s s' impl (y u) h) [
        | inl (empty, r, q) ↦ inl (ap (λ (t : String). some t) ((eq_iff u "").0 empty), r, q)
        | inr (full, e) ↦ inr (u, refl, (λ q. false≢true (sym full ∙ (eq_iff u "").1 q)), e)
      ]

  -- Where the start returns, an empty URI has left the plugin disabled, with no database, no consumer
  -- and no connection to the signal, and without any call of the database; with every other URI there
  -- is a database for the queries, a consumer with the queue size of the options and a database with
  -- their first block and their two lists, and a connection from that block.
  pub plugin_initialize-returned :
      (uninitialised : ℤ) (chain_plug : Bool) (s s' : ps.Db) (impl : SqlDbPluginImpl)
      → plugin_initialize ps c boost options uninitialised chain_plug s ≡ (ok impl, s')
      → ((options.uri ≡ some "") × IsDisabled impl × (s' ≡ s))
        ⊎ ((uri : String) × (options.uri ≡ some uri)
            × (uri ≢ "")
            × IsEnabled configured options.block_start options.queue_size impl)
  unfolding plugin_initialize by_uri
  plugin_initialize-returned uninitialised chain_plug s s' impl h =
      by_uri-returned options.uri _ s s' impl
        (λ u.
          start_with-Enabled _ _ u options.block_start options.queue_size uninitialised chain_plug)
        h

-- The handler pushes a transaction exactly if its block is not before the first block to record and
-- it is not the block's own onblock transaction, and it pushes it once.
pub on_applied_transaction_iff :
    (start : ℕ) (t : TransactionTrace)
    → (on_applied_transaction start t ≡ call t ∷ [])
      ↔ ((start ≤ t.block_num) × (is_onblock t.action_traces ≡ false))
unfolding on_applied_transaction
on_applied_transaction_iff start t = ground arith
