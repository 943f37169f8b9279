-- ===== src/Sql.antt =====
-- What the tables use of soci and MySQL (soci::session, soci::use, soci::into, mysql_ping): neither
-- is part of this repository, so the connection is a parameter, `Driver`. The statements and the
-- values bound to them are the source's.
use Prim.Native.Char.{code}
use eos_sql_db_plugin.Base.{
  ℕ, zero, suc, String, ◌≡◌, Bool, false, not, List, ◌∷◌, [], length, ◌==◌, if◌then◌else◌,
}
use eos_sql_db_plugin.Base.Int.{ℤ}
use eos_sql_db_plugin.Effect.{Effect, Result, ok, throws, std_exception, pure, try_catch, ◌>>◌}

-- A value bound by soci::use, or a column of a row.
pub data Value : Type 0 where
  text : String → Value
  number : ℤ → Value
  null : Value

-- `session << query, use(v1), use(v2), ...`
pub record Statement : Type 0 where
  pub query : String
  pub uses : List Value

pub record Reply : Type 0 where
  pub rows : List (List Value)
  pub affected_rows : ℕ

-- `Db` is the state of the connections and of the database behind them; `lease` and `give_back` are
-- those of soci::connection_pool, which numbers its sessions, and `connect` is session::open.
pub record Driver : Type 1 where
  pub Db : Type 0
  pub connect : ℕ → String → Effect Db (Unit {0})
  pub lease : Effect Db ℕ
  pub give_back : ℕ → Db → Db
  pub mysql_ping : Effect Db ℕ
  pub reconnect : Effect Db (Unit {0})
  pub execute : Statement → Effect Db Reply

-- The two pools that the plugin opens, of `my->sql_db` and of `db_blocks`.
pub data Pool : Type 0 where
  of_sql_db of_db_blocks : Pool

-- The Driver of each pool, over one state: each has sessions of its own, and both reach one database.
pub record Pools : Type 1 where
  pub Db : Type 0
  pub connect : Pool → ℕ → String → Effect Db (Unit {0})
  pub lease : Pool → Effect Db ℕ
  pub give_back : Pool → ℕ → Db → Db
  pub mysql_ping : Pool → Effect Db ℕ
  pub reconnect : Pool → Effect Db (Unit {0})
  pub execute : Pool → Statement → Effect Db Reply

abbrev pub driver : Pools → Pool → Driver
driver ps pool = record {
  Db = ps.Db;
  connect = ps.connect pool;
  lease = ps.lease pool;
  give_back = ps.give_back pool;
  mysql_ping = ps.mysql_ping pool;
  reconnect = ps.reconnect pool;
  execute = ps.execute pool;
}

-- A statement in a try whose catch clauses, `catch (...)` among them, only write to the log.
unfoldable pub attempt : (d : Driver) → Statement → Effect d.Db (Unit {0})
attempt d st = try_catch (d.execute st >> pure tt) (λ _. pure tt)

-- soci::into a std::string that is empty before: no row and a NULL leave it as it is.
abbrev pub first_text : List (List Value) → String
first_text ((text s ∷ _) ∷ _) = s
first_text _ = ""

-- soci::into an int that holds `old` before.
abbrev pub first_number : ℤ → List (List Value) → ℤ
first_number old ((number n ∷ _) ∷ _) = n
first_number old _ = old

-- soci::row::get<std::string> and get<int>: a NULL, a column of another type and a missing column
-- throw.
abbrev pub get_text : ℕ → List Value → Result String
get_text i [] = throws std_exception
get_text zero (text s ∷ _) = ok s
get_text zero (_ ∷ _) = throws std_exception
get_text (suc i) (_ ∷ vs) = get_text i vs

abbrev pub get_number : ℕ → List Value → Result ℤ
get_number i [] = throws std_exception
get_number zero (number n ∷ _) = ok n
get_number zero (_ ∷ _) = throws std_exception
get_number (suc i) (_ ∷ vs) = get_number i vs

-- The placeholders of a query are the colons outside single quotes.
unfoldable pub placeholders_from : Bool → String → ℕ
placeholders_from quoted String.[] = 0
placeholders_from quoted (String.◌∷◌ c s) =
    let rest = placeholders_from (if code c == 39 then not quoted else quoted) s in
    if code c == 58 then if quoted then rest else suc rest else rest

unfoldable pub placeholders : String → ℕ
unfolding placeholders_from
placeholders = placeholders_from false

-- Every placeholder has its value.
abbrev pub IsBound : Statement → Type 0
IsBound st = placeholders st.query ≡ length st.uses
