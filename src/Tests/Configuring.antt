-- ===== src/Tests/Configuring.antt =====
-- The theorem on the plugin from its options on, at concrete options and a concrete run.
use eos_sql_db_plugin.Base.{◌≡◌, refl, true, some, [], ◌∷◌}
use eos_sql_db_plugin.Base.Int.{pos}
use eos_sql_db_plugin.Sql.{driver, of_db_blocks}
use eos_sql_db_plugin.Consumer.Batch.{after_all}
use eos_sql_db_plugin.Plugin.Start.{configured}
use eos_sql_db_plugin.Plugin.Node.Accepted.{accepted}
use eos_sql_db_plugin.Plugin.Node.Records.{recorded}
use eos_sql_db_plugin.Plugin.Node.Configured.{plugin_initialize-recorded}
use eos_sql_db_plugin.Tests.Worlds.{plain}
use eos_sql_db_plugin.Tests.Answering.{boost, options}
use eos_sql_db_plugin.Tests.Resting.{self, tc}
use eos_sql_db_plugin.Tests.Signalling.{consumed, Run-consumed_all}
use eos_sql_db_plugin.Tests.Starting.{server, none_named, system_named, running, new_database}

plugin_initialize-recorded_example :
    (consumed (driver server of_db_blocks) system_named).db
    ≡ after_all
        (recorded
          (driver server of_db_blocks)
          plain
          (configured server plain boost (options (some "mysql://db"))))
        system_named
        (accepted 0 (tc ∷ []))
plugin_initialize-recorded_example =
    plugin_initialize-recorded server plain boost (options (some "mysql://db")) (pos 0) true
      none_named system_named running self 5000 0
      (consumed (driver server of_db_blocks) system_named) new_database refl refl
      (Run-consumed_all (driver server of_db_blocks) system_named) refl refl
