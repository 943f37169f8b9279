-- ===== src/Schema.antt =====
-- The tables of eos.sql as far as the plugin writes them, and which statements fit them.
pub mod Queries
use eos_sql_db_plugin.Base.{
  String, ◌≡◌, Bool, true, false, ◌&&◌, Option, none, some, List, [], ◌∷◌, ◌++◌, map, str_eq,
  if◌then◌else◌,
}
use eos_sql_db_plugin.Sql.{Value, text, number, null, Statement}
use eos_sql_db_plugin.Schema.Queries.{Slot, Shape, shape_of}

pub data ColumnType : Type 0 where
  integer characters datetime : ColumnType

pub record Column : Type 0 where
  pub name : String
  pub type : ColumnType

abbrev columns : ColumnType → List String → List Column
columns t = map (λ n. record { name = n; type = t })

-- The tables that the plugin writes.
abbrev pub table_columns : (table : String) → List Column
table_columns table =
    if str_eq table "accounts"
    then columns integer ("id" ∷ [])
      ++ columns characters ("name" ∷ "abi" ∷ [])
      ++ columns datetime ("created_at" ∷ "updated_at" ∷ [])
    else if str_eq table "accounts_keys"
    then columns integer ("id" ∷ [])
      ++ columns characters ("account" ∷ "public_key" ∷ "permission" ∷ [])
    else if str_eq table "actions"
    then columns integer ("id" ∷ "seq" ∷ "parent" ∷ [])
      ++ columns datetime ("created_at" ∷ [])
      ++ columns characters (
          "account" ∷ "transaction_id" ∷ "name" ∷ "data" ∷ "authorization" ∷ "eosto" ∷ "eosfrom"
          ∷ "receiver" ∷ "payer" ∷ "newaccount" ∷ "sellram_account" ∷ [])
    else if str_eq table "assets"
    then columns integer ("id" ∷ "supply" ∷ "max_supply" ∷ "symbol_precision" ∷ [])
      ++ columns characters ("symbol" ∷ "issuer" ∷ "contract_owner" ∷ "logo_url" ∷ [])
    else if str_eq table "blocks"
    then columns integer
        ("id" ∷ "block_number" ∷ "irreversible" ∷ "version" ∷ "num_transactions" ∷ "confirmed" ∷ [])
      ++ columns characters (
          "block_id" ∷ "prev_block_id" ∷ "transaction_merkle_root" ∷ "action_merkle_root"
          ∷ "producer" ∷ "new_producers" ∷ [])
      ++ columns datetime ("timestamp" ∷ [])
    else if str_eq table "transactions"
    then columns integer (
        "tx_id" ∷ "block_num" ∷ "ref_block_num" ∷ "ref_block_prefix" ∷ "pending" ∷ "num_actions"
        ∷ "irreversible" ∷ [])
      ++ columns characters ("id" ∷ [])
      ++ columns datetime ("expiration" ∷ "created_at" ∷ "updated_at" ∷ [])
    else if str_eq table "votes"
    then columns integer ("id" ∷ []) ++ columns characters ("voter" ∷ "proxy" ∷ "producers" ∷ [])
    else if str_eq table "proposal"
    then columns integer ("id" ∷ [])
      ++ columns characters ("proposer" ∷ "proposal_name" ∷ "requested_approvals" ∷ [])
    else []

abbrev type_in : List Column → String → Option ColumnType
type_in [] name = none
type_in (c ∷ cs) name =
    let rest = type_in cs name in if str_eq c.name name then some c.type else rest

-- A number is put in an integer column, a text in one of characters (JSON among them), and a number
-- of seconds becomes a datetime by FROM_UNIXTIME.
abbrev takes : Option ColumnType → (function : String) → Value → Bool
takes (some integer) function (number n) = str_eq function ""
takes (some characters) function (text s) = str_eq function ""
takes (some datetime) function (number n) = str_eq function "FROM_UNIXTIME"
takes _ function v = false

abbrev is_column : Option ColumnType → Bool
is_column none = false
is_column (some t) = true

abbrev have_columns : List Column → List String → Bool
have_columns cs [] = true
have_columns cs (n ∷ ns) = is_column (type_in cs n) && have_columns cs ns

-- Slot by slot, as many values as slots.
abbrev fit_all : List Column → List Slot → List Value → Bool
fit_all cs [] [] = true
fit_all cs (s ∷ slots) (v ∷ vs) = takes (type_in cs s.column) s.function v && fit_all cs slots vs
fit_all cs _ _ = false

abbrev pub is_typed : Option Shape → List Value → Bool
is_typed none vs = false
is_typed (some s) vs =
    s.filled
    && have_columns (table_columns s.table) s.columns
    && fit_all (table_columns s.table) s.slots vs

-- The value of the first slot of a name.
abbrev value_of : String → List Slot → List Value → Value
value_of name (s ∷ slots) (v ∷ vs) =
    let rest = value_of name slots vs in if str_eq s.name name then v else rest
value_of name _ _ = null

abbrev pub slots_of : Option Shape → List Slot
slots_of none = []
slots_of (some s) = s.slots

-- A statement that fits the tables: the columns that it lists are columns of its table, of an
-- INSERT each with a value, every placeholder has a value of the kind of its column, and placeholders of one name have one value.
pub record Fits (st : Statement) : Type 0 where
  pub typed : is_typed (shape_of st.query) st.uses ≡ true
  pub by_name :
      st.uses
      ≡ map
          (λ (s : Slot). value_of s.name (slots_of (shape_of st.query)) st.uses)
          (slots_of (shape_of st.query))
