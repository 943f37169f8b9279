-- ===== src/Actions/Add.antt =====
-- actions_table::add (sql_db_plugin/db/actions_table.cpp).
use eos_sql_db_plugin.Base.{ℕ, String, Bool, true, false, List, contains, ◌≡◌, if◌then◌else◌}
use eos_sql_db_plugin.Effect.{Effect, pure, lift, try_catch, ◌>>=◌, ◌>>◌, bind_assoc, pure-bind}
use eos_sql_db_plugin.Sql.{Driver, attempt}
use eos_sql_db_plugin.Chain.{Action, ChainLib}
use eos_sql_db_plugin.Actions.Statements.{actions_insert}
use eos_sql_db_plugin.Actions.AddData.{add_data}
use eos_sql_db_plugin.Actions.Parse.{parse_actions}

module _ (d : Driver) (c : ChainLib) where
  open d use {Db}
  open c use {sec_since_epoch, json_of_authorization, arg_of_json}

  -- The body of the `if`. The conversion of the JSON text stands outside every try.
  unfoldable pub record_row : Action → (transaction_id : String) → (block_time : ℕ) → Effect Db Bool
  record_row action transaction_id block_time = do
    json ← add_data d c action
    data_json ← lift (arg_of_json json)
    attempt d (
        actions_insert action (sec_since_epoch block_time) json
          (json_of_authorization action.authorization) transaction_id data_json)
    try_catch (parse_actions d c action) (λ _. pure tt)
    pure true

  -- `filter_out` is the list of the names to record.
  unfoldable pub add : Action → String → ℕ → (filter_out : List String) → Effect Db Bool
  add action transaction_id block_time filter_out =
      if contains action.name filter_out
      then record_row action transaction_id block_time
      else pure false

  -- What the call does for a name on the list, and for one that is not.
  pub add-record_row :
      (action : Action) (id : String) (time : ℕ) (filter_out : List String)
      → contains action.name filter_out ≡ true
      → add action id time filter_out ≡ record_row action id time
  unfolding add
  add-record_row action id time filter_out h = rw h

  pub add-skip :
      (action : Action) (id : String) (time : ℕ) (filter_out : List String)
      → contains action.name filter_out ≡ false
      → add action id time filter_out ≡ pure false
  unfolding add
  add-skip action id time filter_out h = rw h

  -- A call that returns has answered true.
  pub record_row-bind :
      {B : Type 0} (action : Action) (id : String) (time : ℕ) (f : Bool → Effect Db B)
      → (record_row action id time >>= f) ≡ (record_row action id time >> f true)
  unfolding record_row
  record_row-bind action id time f = simp (bind_assoc, pure-bind)
