-- ===== src/Session/Keeping.antt =====
-- What soci_session_pool keeps of the database when the calls of the pool keep it.
use eos_sql_db_plugin.Base.{ℕ}
use eos_sql_db_plugin.Effect.{Result, ok, throws, Effect, finally, on_throw, cleaned}
use eos_sql_db_plugin.Effect.Keeps.{Keeps, Keeps-bind, Keeps-pure, Keeps-try_catch}
use eos_sql_db_plugin.Sql.{Driver}
use eos_sql_db_plugin.Session.{reconnect_ptr, get_session, with_session}
use eos_sql_db_plugin.Session.Leases.{reconnect_ptr-Keeps}

-- A property of the database that leasing, giving back and reconnecting a session leave alone.
pub record PoolLaws (d : Driver) (P : d.Db → Type 0) : Type 0 where
  pub lease_keeps : Keeps P d.lease
  pub give_back_keeps : (pos : ℕ) (s : d.Db) → P s → P (d.give_back pos s)
  pub ping_keeps : Keeps P d.mysql_ping
  pub reconnect_keeps : Keeps P d.reconnect

module _ (d : Driver) (P : d.Db → Type 0) (laws : PoolLaws d P) where
  open d use {Db, give_back}
  open laws use {lease_keeps, give_back_keeps, ping_keeps, reconnect_keeps}

  cleaned_after :
      {A : Type 0} (pos : ℕ) (r : Result A × Db) → P r.1 → P (cleaned r (give_back pos)).1
  cleaned_after pos (ok a, s) h = h
  cleaned_after pos (throws e, s) h = give_back_keeps pos s h

  on_throw-Keeps :
      {A : Type 0} (pos : ℕ) (m : Effect Db A) → Keeps P m → Keeps P (on_throw m (give_back pos))
  unfolding on_throw
  on_throw-Keeps pos m k = record { after = λ s h. cleaned_after pos (m s) (k.after s h) }

  finally-Keeps :
      {A : Type 0} (pos : ℕ) (m : Effect Db A) → Keeps P m → Keeps P (finally m (give_back pos))
  unfolding finally
  finally-Keeps pos m k = record { after = λ s h. give_back_keeps pos (m s).1 (k.after s h) }

  reconnecting-Keeps : Keeps P (reconnect_ptr d)
  reconnecting-Keeps = reconnect_ptr-Keeps d ping_keeps reconnect_keeps

  get_session-Keeps : Keeps P (get_session d)
  unfolding get_session
  get_session-Keeps = Keeps-bind _ _ lease_keeps (λ pos. on_throw-Keeps pos _ (
      Keeps-bind _ _ (Keeps-try_catch _ _ reconnecting-Keeps (λ _. reconnecting-Keeps))
        (λ _. Keeps-pure pos)))

  pub with_session-Kept :
      {A : Type 0} (body : Effect Db A) → Keeps P body → Keeps P (with_session d body)
  unfolding with_session
  with_session-Kept body k = Keeps-bind _ _ get_session-Keeps (λ pos. finally-Keeps pos body k)
