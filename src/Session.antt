-- ===== src/Session.antt =====
-- soci_session_pool (sql_db_plugin/include/eosio/sql_db_plugin/session_pool.hpp). A
-- shared_ptr<soci::session> is the number of the session that it leases; its destructor gives the
-- session back.
pub mod Leases
pub mod Keeping
use eos_sql_db_plugin.Base.{ℕ, zero, suc, ◌+◌, ◌==◌, String, if◌then◌else◌}
use eos_sql_db_plugin.Effect.{Effect, pure, try_catch, finally, on_throw, ◌>>=◌, ◌>>◌}
use eos_sql_db_plugin.Sql.{Driver, Statement}
use mathlib.Core.List.{[]}

abbrev pub select_one : Statement
select_one = record { query = "select 1;"; uses = [] }

module _ (d : Driver) where
  open d use {Db, connect, lease, give_back, mysql_ping, execute}

  -- The loop of the constructor, with `left` rounds to go.
  unfoldable pub open_from : (i left : ℕ) → String → Effect Db (Unit {0})
  open_from i zero uri = pure tt
  open_from i (suc left) uri = connect i uri >> open_from (i + 1) left uri

  unfoldable pub soci_session_pool : (pool_size : ℕ) → String → Effect Db (Unit {0})
  unfolding open_from
  soci_session_pool pool_size uri = open_from 0 pool_size uri

  -- reconnect(shared_ptr): only the answer 1 of mysql_ping makes it reconnect.
  unfoldable pub reconnect_ptr : Effect Db (Unit {0})
  reconnect_ptr = mysql_ping >>= λ i. if i == 1 then d.reconnect else pure tt

  -- get_session(): a second failure to reconnect is not caught, and drops the session.
  unfoldable pub get_session : Effect Db ℕ
  get_session = do
    pos ← lease
    on_throw (try_catch reconnect_ptr (λ _. reconnect_ptr) >> pure pos) (give_back pos)

  -- A call made while a session of its own is held.
  unfoldable pub with_session : {A : Type 0} → Effect Db A → Effect Db A
  with_session body = do pos ← get_session; finally body (give_back pos)

  -- reconnect(session&), get_session(pos&) and release(pos)
  unfoldable pub reconnect_ref : Effect Db (Unit {0})
  reconnect_ref = try_catch (execute select_one >> pure tt) (λ _. d.reconnect)

  unfoldable pub get_session_at : Effect Db ℕ
  get_session_at = do pos ← lease; reconnect_ref; pure pos

  unfoldable pub release : ℕ → Effect Db (Unit {0})
  release pos db = pure tt (give_back pos db)
