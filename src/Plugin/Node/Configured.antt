-- ===== src/Plugin/Node/Configured.antt =====
-- The plugin from its options to the rows that it records: plugin_initialize of
-- sql_db_plugin/sql_db_plugin.cpp and the runs of the node after it.
use eos_sql_db_plugin.Base.{
  ℕ, ◌≡◌, sym, ap, ◌∙◌, ◌≢◌, inl, inr, Bool, Option, none, some, some-injective,
}
use eos_sql_db_plugin.Base.Int.{ℤ}
use eos_sql_db_plugin.Effect.{ok}
use eos_sql_db_plugin.Sql.{Pools, driver, of_db_blocks}
use eos_sql_db_plugin.Chain.{ChainLib}
use eos_sql_db_plugin.Database.{SqlDatabase}
use eos_sql_db_plugin.Consumer.Channel.{asleep, idle}
use eos_sql_db_plugin.Consumer.Batch.{after_all}
use eos_sql_db_plugin.Plugin.{Boost, VariablesMap, SqlDbPluginImpl, plugin_initialize}
use eos_sql_db_plugin.Plugin.Start.{IsEnabled, configured, plugin_initialize-returned}
use eos_sql_db_plugin.Plugin.Node.{Node, started, Run}
use eos_sql_db_plugin.Plugin.Node.Accepted.{accepted}
use eos_sql_db_plugin.Plugin.Node.Records.{recorded, Run-recorded}

-- What the members of the plugin are where it has a consumer.
enabled_handler :
    (wanted sql_db : SqlDatabase) (block_start size queue_size start : ℕ) (impl : SqlDbPluginImpl)
    → IsEnabled wanted block_start size impl
    → impl.handler ≡ some (sql_db, queue_size)
    → impl.applied_transaction_connection ≡ some start
    → (sql_db ≡ wanted) × (start ≡ block_start)
enabled_handler wanted sql_db block_start size queue_size start impl (own, c, o, h, s) h' s' = (
  ap (λ (x : SqlDatabase × ℕ). x.0) (some-injective _ _ (sym h' ∙ h)),
  some-injective _ _ (sym s' ∙ s),
)

none_some : {A : Type 0} {a : A} → ◌≢◌ {A = Option A} none (some a)
none_some e = cc

module _ (ps : Pools) (c : ChainLib) (boost : Boost) (options : VariablesMap) where
  pub members :
      (uninitialised : ℤ) (chain_plug : Bool) (s s' : ps.Db) (impl : SqlDbPluginImpl)
      (sql_db : SqlDatabase) (queue_size start : ℕ)
      → plugin_initialize ps c boost options uninitialised chain_plug s ≡ (ok impl, s')
      → impl.handler ≡ some (sql_db, queue_size)
      → impl.applied_transaction_connection ≡ some start
      → (sql_db ≡ configured ps c boost options) × (start ≡ options.block_start)
  members uninitialised chain_plug s s' impl sql_db queue_size start e h k =
      elim (plugin_initialize-returned ps c boost options uninitialised chain_plug s s' impl e) [
        | inl (u, (p, q, off, r), t) ↦ absurd (none_some (sym off ∙ h))
        | inr (uri, u, full, on) ↦
            enabled_handler (configured ps c boost options) sql_db options.block_start
              options.queue_size queue_size start impl on h k
      ]

  -- After a plugin_initialize that returns with a consumer and a connection to the signal, in every
  -- run of the node with them from the database that it leaves: whenever the worker of the traces
  -- sleeps and no call of `queue` is under way, the database is what comes of recording, for one
  -- transaction after another of those from the first block of the options on that are not onblock,
  -- the actions in its traces that the list of the options selects.
  pub plugin_initialize-recorded :
      (uninitialised : ℤ) (chain_plug : Bool) (s s' : ps.Db) (impl : SqlDbPluginImpl)
      (sql_db : SqlDatabase) (queue_size start : ℕ) (n : Node ps.Db)
      → plugin_initialize ps c boost options uninitialised chain_plug s ≡ (ok impl, s')
      → impl.handler ≡ some (sql_db, queue_size)
      → impl.applied_transaction_connection ≡ some start
      → Run (driver ps of_db_blocks) c sql_db queue_size start (started s') n
      → n.consumer.traces.worker ≡ asleep
      → n.consumer.traces.producer ≡ idle
      → n.db
        ≡ after_all
            (recorded (driver ps of_db_blocks) c (configured ps c boost options))
            s'
            (accepted options.block_start n.signals)
  plugin_initialize-recorded uninitialised chain_plug s s' impl sql_db queue_size start n e h k r w
        p =
      let d = driver ps of_db_blocks in
      let (same, first) =
        members uninitialised chain_plug s s' impl sql_db queue_size start e h k in
      Run-recorded d c sql_db queue_size start s' n r w p
      ∙ ap (λ x. after_all (recorded d c x) s' (accepted start n.signals)) same
      ∙ ap (λ x. after_all (recorded d c (configured ps c boost options)) s' (accepted x n.signals))
          first
