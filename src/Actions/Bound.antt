-- ===== src/Actions/Bound.antt =====
-- The statements that actions_table gives to the driver, and the values that they bind to their
-- placeholders.
use eos_sql_db_plugin.Base.{ℕ, String, refl, List}
use eos_sql_db_plugin.Effect.Keeps.{Keeps}
use eos_sql_db_plugin.Sql.{Driver, Statement, IsBound, placeholders}
use eos_sql_db_plugin.Chain.{Action, ChainLib}
use eos_sql_db_plugin.Actions.Issued.{
  Issued, abi_selected, abi_stored, account_named, key_given, vote_cast, proposed, proposal_ended,
  asset_created, row_inserted, add-Issued,
}
use eos_sql_db_plugin.Actions.Add.{add}

pub Issued-IsBound : {st : Statement} → Issued st → IsBound st
unfolding placeholders
Issued-IsBound (abi_selected account) = refl
Issued-IsBound (abi_stored account json) = refl
Issued-IsBound (account_named name) = refl
Issued-IsBound (key_given account key permission) = refl
Issued-IsBound (vote_cast voter proxy producers) = refl
Issued-IsBound (proposed proposer proposal_name requested) = refl
Issued-IsBound (proposal_ended proposer proposal_name) = refl
Issued-IsBound (asset_created supply issuer owner) = refl
Issued-IsBound (row_inserted action time json json_auth id arg) = refl

module _ (d : Driver) (c : ChainLib) (P : d.Db → Type 0)
    (bound : (st : Statement) → IsBound st → Keeps P (d.execute st)) where
  -- Whatever the driver does, a property that it keeps under statements with a value for each
  -- placeholder is kept by `add`, also when it throws: it gives the driver no other statement.
  pub add-Keeps :
      (action : Action) (id : String) (time : ℕ) (filter_out : List String)
      → Keeps P (add d c action id time filter_out)
  add-Keeps = add-Issued d c P (λ st i. bound st (Issued-IsBound i))
