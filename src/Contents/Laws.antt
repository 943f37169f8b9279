-- ===== src/Contents/Laws.antt =====
-- A driver whose server answers the statements of actions_table::add as the reference does, with the
-- sessions of the pool (sql_db_plugin/include/eosio/sql_db_plugin/session_pool.hpp).
use eos_sql_db_plugin.Base.{ℕ, ◌≡◌, ap, ◌∙◌}
use eos_sql_db_plugin.Effect.{Effect, Result, ok, ◌>>=◌, finally, continued}
use eos_sql_db_plugin.Effect.Simulates.{Simulates, seen}
use eos_sql_db_plugin.Effect.Silent.{
  Silent, Silent-pure, Silent-if, Silent-try_catch, Silent-on_throw, Silent-bind,
}
use eos_sql_db_plugin.Sql.{Driver, Statement}
use eos_sql_db_plugin.Session.{reconnect_ptr, get_session, with_session}
use eos_sql_db_plugin.Actions.Issued.{Issued}
use eos_sql_db_plugin.Contents.{Contents, Server}
use eos_sql_db_plugin.Contents.Reference.{reference}

-- A pool that leases sessions and reconnects them without touching what the tables hold.
pub record SilentPool (d : Driver) (view : d.Db → Contents) : Type 0 where
  pub lease_silent : Silent view d.lease
  pub give_back_silent : (pos : ℕ) (s : d.Db) → view (d.give_back pos s) ≡ view s
  pub ping_silent : Silent view d.mysql_ping
  pub reconnect_silent : Silent view d.reconnect

-- `view` is what the tables hold.
pub record ServerLaws (d : Driver) (sv : Server) : Type 0 where
  pub view : d.Db → Contents
  pub answers :
      (st : Statement) → Issued st → Simulates view (d.execute st) ((reference sv).execute st)
  pub pool : SilentPool d view

module _ (d : Driver) (view : d.Db → Contents) (pool : SilentPool d view) where
  open pool use {lease_silent, give_back_silent, ping_silent, reconnect_silent}

  reconnect_ptr-Silent : Silent view (reconnect_ptr d)
  unfolding reconnect_ptr
  reconnect_ptr-Silent =
      Silent-bind _ _ ping_silent (λ i. Silent-if _ _ _ reconnect_silent (Silent-pure tt))

  get_session-Silent : Silent view (get_session d)
  unfolding get_session
  get_session-Silent = Silent-bind _ _ lease_silent (λ pos.
      Silent-on_throw _ _
        (Silent-bind _ _ (Silent-try_catch _ _ reconnect_ptr-Silent) (λ _. Silent-pure pos)))

  -- A session of its own changes nothing that the tables hold.
  pub with_session-Simulates :
      {A : Type 0} (m : Effect d.Db A) (n : Effect Contents A)
      → Simulates view m n
      → Simulates view (with_session d m) n
  unfolding with_session finally ◌>>=◌
  with_session-Simulates m n h = record {
    agrees = λ s.
        let (pos, t, e, same) = get_session-Silent.passes s in
        ap (λ r. seen view (continued r (λ p. finally m (d.give_back p)))) e
        ∙ ap (λ v. ((m t).0, v)) (give_back_silent pos (m t).1)
        ∙ h.agrees t
        ∙ ap n same;
  }

  -- A call under a session of its own returns what it returns without it in a state with the same
  -- tables.
  pub with_session_returns :
      {A : Type 0} (m : Effect d.Db A) (s : d.Db)
      → (t : d.Db) × (view t ≡ view s)
        × ((a : A) (u : d.Db) → m t ≡ (ok a, u) → (v : d.Db) × (with_session d m s ≡ (ok a, v)))
  unfolding with_session finally ◌>>=◌
  with_session_returns {A = A} m s =
      let (pos, t, e, same) = get_session-Silent.passes s in
      (
        t,
        same,
        λ a u h. (
          d.give_back pos u,
          ap (λ r. continued r (λ p. finally m (d.give_back p))) e
              ∙ ap (λ (r : Result A × d.Db). (r.0, d.give_back pos r.1)) h,
        ),
      )
