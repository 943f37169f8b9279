-- ===== src/Actions/Fitting.antt =====
-- That the statements of actions_table::add fit the tables of eos.sql.
use eos_sql_db_plugin.Base.{refl}
use eos_sql_db_plugin.Sql.{Statement}
use eos_sql_db_plugin.Schema.{Fits}
use eos_sql_db_plugin.Schema.Queries.{shape_of}
use eos_sql_db_plugin.Actions.Issued.{
  Issued, abi_selected, abi_stored, account_named, key_given, vote_cast, proposed, proposal_ended,
  asset_created, row_inserted,
}

pub Issued-Fits : {st : Statement} → Issued st → Fits st
unfolding shape_of
Issued-Fits (abi_selected account) = record { typed = refl; by_name = refl }
Issued-Fits (abi_stored account json) = record { typed = refl; by_name = refl }
Issued-Fits (account_named name) = record { typed = refl; by_name = refl }
Issued-Fits (key_given account key permission) = record { typed = refl; by_name = refl }
Issued-Fits (vote_cast voter proxy producers) = record { typed = refl; by_name = refl }
Issued-Fits (proposed proposer proposal_name requested) = record { typed = refl; by_name = refl }
Issued-Fits (proposal_ended proposer proposal_name) = record { typed = refl; by_name = refl }
Issued-Fits (asset_created supply issuer owner) = record { typed = refl; by_name = refl }
Issued-Fits (row_inserted action time json json_auth id arg) = record {
  typed = refl;
  by_name = refl;
}
