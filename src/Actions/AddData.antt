-- ===== src/Actions/AddData.antt =====
-- actions_table::add_data (sql_db_plugin/db/actions_table.cpp): the JSON text of an action's data.
use eos_sql_db_plugin.Base.{ℕ, String, Bool, ◌&&◌, is_empty, str_eq, if◌then◌else◌}
use eos_sql_db_plugin.Effect.{
  Exception, fc_exception, mysql_soci_error, std_exception, unknown, throws, Effect, pure, lift,
  try_catch, ◌>>=◌, ◌>>◌,
}
use eos_sql_db_plugin.Sql.{Driver, attempt, first_text}
use eos_sql_db_plugin.Chain.{Action, SetAbi, ChainLib}
use eos_sql_db_plugin.Actions.Statements.{abi_select, abi_upsert}

-- mysql_table::max_serialization_time (table.hpp), in microseconds.
abbrev pub max_serialization_time : ℕ
max_serialization_time = 150000

-- actions_table::setabi and actions_table::newaccount
abbrev pub setabi : String
setabi = "setabi"

abbrev pub newaccount : String
newaccount = "newaccount"

module _ (d : Driver) (c : ChainLib) where
  open d use {Db, execute}
  open c use {
    system_account_name, abi_of_json, json_of_abi, unpack_abi, set_abi, get_action_type,
    binary_to_variant, json_of_variant, as_setabi,
  }

  -- `abi_def_account` after the query: empty where there is no row or no ABI.
  unfoldable pub select_abi : String → Effect Db String
  select_abi account = execute (abi_select account) >>= λ r. pure (first_text r.rows)

  -- The innermost try of the setabi branch, with `return json_str`.
  unfoldable pub store_abi : SetAbi → String → Effect Db String
  store_abi s json_str = attempt d (abi_upsert s.account json_str) >> pure json_str

  -- The part below the setabi branch: the data by the account's own ABI.
  unfoldable pub decode_data : Action → Effect Db String
  decode_data action = do
    abi_def_account ← select_abi action.account
    if str_eq abi_def_account ""
        then pure "{}"
        else try_catch
            (do
              abi ← lift (abi_of_json abi_def_account)
              abis ← lift (set_abi abi max_serialization_time)
              v ← lift (
                  binary_to_variant abis (get_action_type abis action.name) action.bytes
                    max_serialization_time)
              pure (json_of_variant v))
            (λ _. pure "{}")

  -- `catch(fc::exception& e)` falls through to the part below; any other goes to the outer try.
  abbrev pub unpack_handler : Action → Exception → Effect Db String
  unpack_handler action fc_exception = decode_data action
  unpack_handler action mysql_soci_error = lift (throws mysql_soci_error)
  unpack_handler action std_exception = lift (throws std_exception)
  unpack_handler action unknown = lift (throws unknown)

  unfoldable pub setabi_data : Action → Effect Db String
  setabi_data action = do
    s ← lift (as_setabi action.bytes)
    try_catch (lift (unpack_abi s.abi) >>= λ abi. store_abi s (json_of_abi abi))
        (unpack_handler action)

  abbrev pub is_setabi : Action → Bool
  is_setabi action = str_eq action.account system_account_name && str_eq action.name setabi

  -- Wherever something is thrown, `json_str` still is "{}".
  unfoldable pub add_data : Action → Effect Db String
  add_data action =
      if is_empty action.bytes
      then pure "{}"
      else try_catch (if is_setabi action then setabi_data action else decode_data action)
          (λ _. pure "{}")
