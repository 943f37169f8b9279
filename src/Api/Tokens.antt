-- ===== src/Api/Tokens.antt =====
-- get_tokens, get_all_tokens and get_hold_tokens of read_only (sql_db_plugin/sql_db_plugin.cpp), with
-- asset_amount_to_string of its header. The state of a walk is the vector `result.tokens`.
use Prim.Native.String.{◌++◌ as append}
use eos_sql_db_plugin.Base.{
  ℕ, ◌-◌, ◌%◌, String, Bool, not, ◌||◌, List, [], ◌∷◌, ◌++◌, ◌==◌, ltb, length, str_eq,
  if◌then◌else◌,
}
use eos_sql_db_plugin.Base.Int.{ℤ, pos, negsuc, is_negative}
use eos_sql_db_plugin.Base.Int64.{abs, quot, rem, plus}
use eos_sql_db_plugin.Effect.{
  Result, ok, throws, fc_exception, Effect, pure, lift, try_catch, ◌>>=◌, ◌>>◌, for_each,
}
use eos_sql_db_plugin.Sql.{Driver, Value, get_text, get_number}
use eos_sql_db_plugin.Chain.{Asset}
use eos_sql_db_plugin.Session.{with_session}
use eos_sql_db_plugin.Actions.Statements.{assets_page, assets_all}
use eos_sql_db_plugin.Api.Chainbase.{Chainbase, get_abi, get_table_type, walk_key_value_table}

pub record Token : Type 0 where
  pub contract : String
  pub quantity : String
  pub symbol : String
  pub precision : ℕ

pub record TokenParams : Type 0 where
  pub contract : String
  pub symbol : String
  pub precision : ℕ

-- `erase(0,1)`
abbrev pub erase_first : String → String
erase_first String.[] = String.[]
erase_first (String.◌∷◌ c s) = s

-- The conversion of an int to uint8_t.
abbrev pub to_uint8 : ℤ → ℕ
to_uint8 (pos n) = n % 256
to_uint8 (negsuc n) = 255 - n % 256

-- The tokens that a call has put into its result.
abbrev pub push_token : Token → Effect (List Token) (Unit {0})
push_token t tokens = (ok tt, tokens ++ t ∷ [])

module _ (db : Chainbase) where
  open db use {sizeof_asset, unpack_asset, symbol_valid, zero_asset, precision_of, to_string}

  unfoldable pub asset_amount_to_string : Asset → String
  asset_amount_to_string cursor =
      let sign : String = if is_negative cursor.amount then "-" else "" in
      let abs_amount = abs cursor.amount in
      let whole = to_string (quot abs_amount (precision_of cursor)) in
      let fract = rem abs_amount (precision_of cursor) in
      append sign (
        if cursor.decimals == 0
        then whole
        else append whole (append "." (erase_first (to_string (plus (precision_of cursor) fract)))))

  -- The asset in a row of a table accounts, or what the two assertions and unpack throw.
  unfoldable pub cursor_of : List ℕ → Result Asset
  cursor_of value =
      if ltb (length value) sizeof_asset then throws fc_exception else elim (unpack_asset value) [
        | throws e ↦ throws e
        | ok cursor ↦ if symbol_valid cursor then ok cursor else throws fc_exception
      ]

  -- The callback of the three walks, for the token of `contract` and `symbol`.
  unfoldable pub on_row : (contract symbol : String) → List ℕ → Effect (List Token) Bool
  on_row contract symbol value = do
    cursor ← lift (cursor_of value)
    if str_eq cursor.symbol_name symbol
        then push_token (record {
          contract = contract;
          quantity = asset_amount_to_string cursor;
          symbol = symbol;
          precision = cursor.decimals;
        })
        else pure tt
    pure (not (str_eq cursor.symbol_name symbol))

  -- The other callback of get_tokens and get_all_tokens, for an account with no row of the contract.
  unfoldable pub push_zero :
      (contract symbol : String) → (precision shown : ℕ) → Effect (List Token) (Unit {0})
  push_zero contract symbol precision shown = do
    cursor ← lift (zero_asset precision symbol)
    push_token (record {
      contract = contract;
      quantity = asset_amount_to_string cursor;
      symbol = symbol;
      precision = shown;
    })

  -- get_abi, get_table_type and the walk, which the three queries have in common.
  unfoldable pub walk_accounts :
      (account contract symbol : String)
      → Effect (List Token) (Unit {0})
      → Effect (List Token) (Unit {0})
  walk_accounts account contract symbol f2 = do
    abi ← lift (get_abi db contract)
    lift (get_table_type (db.tables_of abi) "accounts")
    walk_key_value_table db contract account "accounts" (on_row contract symbol) f2

  -- A round of a loop: every catch clause only logs.
  abbrev pub logged : Effect (List Token) (Unit {0}) → Effect (List Token) (Unit {0})
  logged body = try_catch body (λ _. pure tt)

  unfoldable pub get_token : (account : String) → TokenParams → Effect (List Token) (Unit {0})
  get_token account t = walk_accounts account t.contract t.symbol (
      if ltb 18 t.precision then pure tt else push_zero t.contract t.symbol t.precision t.precision)

  unfoldable pub get_tokens : (account : String) → List TokenParams → List Token
  get_tokens account tokens = (for_each tokens (λ t. logged (get_token account t)) []).1

  -- One row of the table assets, for get_all_tokens.
  unfoldable pub get_asset_token : (account : String) → List Value → Effect (List Token) (Unit {0})
  get_asset_token account row = do
    contract ← lift (get_text 0 row)
    symbol ← lift (get_text 3 row)
    walk_accounts account contract symbol (
        lift (get_number 2 row) >>= λ precision.
        push_zero contract symbol (to_uint8 precision) (to_uint8 precision))

  -- One row of the table assets, for get_hold_tokens.
  unfoldable pub get_hold_token : (account : String) → List Value → Effect (List Token) (Unit {0})
  get_hold_token account row = do
    contract ← lift (get_text 0 row)
    symbol ← lift (get_text 3 row)
    walk_accounts account contract symbol (pure tt)

  module _ (d : Driver) where
    unfoldable pub get_all_tokens :
        (account : String) → (start_num page_size : ℤ) → Effect d.Db (List Token)
    get_all_tokens account start_num page_size =
        if is_negative start_num || is_negative page_size
        then pure []
        else with_session d (d.execute (assets_page start_num page_size)) >>= λ assets.
            pure (for_each assets.rows (λ row. logged (get_asset_token account row)) []).1

    unfoldable pub get_hold_tokens : (account : String) → Effect d.Db (List Token)
    get_hold_tokens account = with_session d (d.execute assets_all) >>= λ assets.
        pure (for_each assets.rows (λ row. logged (get_hold_token account row)) []).1
