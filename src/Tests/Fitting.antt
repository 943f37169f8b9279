-- ===== src/Tests/Fitting.antt =====
-- The theorems on the statements and the tables of eos.sql at concrete inputs.
use eos_sql_db_plugin.Base.{false, none, List, [], ◌∷◌}
use eos_sql_db_plugin.Effect.Keeps.{Keeps}
use eos_sql_db_plugin.Sql.{Statement}
use eos_sql_db_plugin.Chain.{BlockState}
use eos_sql_db_plugin.Schema.{Fits}
use eos_sql_db_plugin.Session.Keeping.{PoolLaws}
use eos_sql_db_plugin.Tables.Transactions.{transactions_irreversible}
use eos_sql_db_plugin.Tables.Blocks.{blocks_replace, blocks_new_producers, blocks_irreversible}
use eos_sql_db_plugin.Tables.Columns.{update_unfit}
use eos_sql_db_plugin.Plugin.Node.Statements.{Run-Fits}
use eos_sql_db_plugin.Tests.Resting.{self}
use eos_sql_db_plugin.Tests.Signalling.{consumed, Run-consumed_all}
use eos_sql_db_plugin.Tests.Worlds.{logging, plain}

-- Every statement of the log fits.
abbrev AllFit : List Statement → Type 0
AllFit [] = Unit {0}
AllFit (st ∷ l) = Fits st × AllFit l

logging-AllFit : (st : Statement) → Fits st → Keeps AllFit (logging.execute st)
logging-AllFit st f = record { after = λ l h. (f, h) }

logging-PoolLaws : PoolLaws logging AllFit
logging-PoolLaws = record {
  lease_keeps = record { after = λ l h. h };
  give_back_keeps = λ pos l h. h;
  ping_keeps = record { after = λ l h. h };
  reconnect_keeps = record { after = λ l h. h };
}

Run-Fits_example : AllFit (consumed logging []).db
Run-Fits_example =
    Run-Fits logging plain self 5000 0 [] AllFit (consumed logging []) logging-AllFit
      logging-PoolLaws tt (Run-consumed_all logging [])

abbrev block : BlockState
block = record {
  id = "b1";
  block_num = 5;
  previous = "b0";
  timestamp = 10;
  transaction_mroot = "";
  action_mroot = "";
  producer = "p";
  schedule_version = 0;
  confirmed = 0;
  trxs = [];
  new_producers = none;
  transactions = [];
}

update_unfit_example :
    ¬ (Fits (blocks_replace block 10))
    × ¬ (Fits (blocks_new_producers "[]" "b1"))
    × ¬ (Fits (blocks_irreversible "b1" false))
    × ¬ (Fits (transactions_irreversible "b1" false "t1"))
update_unfit_example = update_unfit block 10 "[]" "b1" "t1" false
