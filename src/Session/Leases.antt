-- ===== src/Session/Leases.antt =====
-- soci_session_pool by the number of the sessions that its calls take and give back.
use eos_sql_db_plugin.Base.{ℕ, ◌==◌, ◌+◌, ◌-◌, ◌≡◌, ◌∙◌, ap, subst, arith}
use eos_sql_db_plugin.Effect.{
  Result, ok, throws, Effect, pure, try_catch, finally, on_throw, ◌>>=◌, ◌>>◌, continued, cleaned,
}
use eos_sql_db_plugin.Effect.Keeps.{Keeps, Keeps-bind, Keeps-if, Keeps-pure, keeps_rules}
use eos_sql_db_plugin.Sql.{Driver, Statement}
use eos_sql_db_plugin.Session.{reconnect_ptr, get_session, with_session}

-- After a call that began with `n` sessions leased: one more if it returned, as many if it threw.
abbrev pub Takes : {A S : Type 0} → (S → ℕ) → ℕ → Result A × S → Type 0
Takes leased n (ok a, s) = leased s ≡ n + 1
Takes leased n (throws e, s) = leased s ≡ n

-- What soci documents of its pool, by the number of sessions leased.
pub record LeaseLaws (d : Driver) : Type 0 where
  pub leased : d.Db → ℕ
  pub lease_takes : (s : d.Db) → Takes leased (leased s) (d.lease s)
  pub give_back_frees : (pos : ℕ) (s : d.Db) → leased (d.give_back pos s) ≡ leased s - 1
  pub ping_keeps : (n : ℕ) → Keeps (λ s. leased s ≡ n) d.mysql_ping
  pub reconnect_keeps : (n : ℕ) → Keeps (λ s. leased s ≡ n) d.reconnect
  pub execute_keeps : (n : ℕ) (st : Statement) → Keeps (λ s. leased s ≡ n) (d.execute st)

module _ (d : Driver) {P : d.Db → Type 0} (ping : Keeps P d.mysql_ping)
    (again : Keeps P d.reconnect) where
  pub reconnect_ptr-Keeps : Keeps P (reconnect_ptr d)
  unfolding reconnect_ptr
  reconnect_ptr-Keeps = Keeps-bind _ _ ping (λ i. Keeps-if (i == 1) _ _ again (Keeps-pure tt))

module _ (d : Driver) (laws : LeaseLaws d) where
  open d use {Db, give_back}
  open laws use {leased, lease_takes, give_back_frees, ping_keeps, reconnect_keeps}

  reconnecting : (n : ℕ) → Keeps (λ s. leased s ≡ n) (reconnect_ptr d)
  reconnecting n = reconnect_ptr-Keeps d (ping_keeps n) (reconnect_keeps n)

  freed : (pos n : ℕ) (s : Db) → leased s ≡ n + 1 → leased (give_back pos s) ≡ n
  freed pos n s h = give_back_frees pos s ∙ ap (λ (k : ℕ). k - 1) h ∙ omega arith

  cleaned-Takes :
      {A : Type 0} (pos n : ℕ) (r : Result A × Db)
      → leased r.1 ≡ n + 1
      → Takes leased n (cleaned r (give_back pos))
  cleaned-Takes pos n (ok a, s) h = h
  cleaned-Takes pos n (throws e, s) h = freed pos n s h

  connected :
      (n pos : ℕ)
      → Keeps (λ s. leased s ≡ n) (try_catch (reconnect_ptr d) (λ _. reconnect_ptr d) >> pure pos)
  connected n pos = search (keeps_rules, reconnecting)

  leased-Takes :
      (n : ℕ) (r : Result ℕ × Db)
      → Takes leased n r
      → Takes leased n (
          continued r (λ pos.
            on_throw
              (try_catch (reconnect_ptr d) (λ _. reconnect_ptr d) >> pure pos)
              (give_back pos)))
  unfolding on_throw
  leased-Takes n (ok pos, s) h = cleaned-Takes pos n _ ((connected (n + 1) pos).after s h)
  leased-Takes n (throws e, s) h = h

  -- With a pool that counts its leases as soci documents, get_session leaves one more session
  -- leased if it returns and as many as before if it throws: a session that cannot be reconnected
  -- goes back to the pool.
  pub get_session-Takes : (s : Db) → Takes leased (leased s) (get_session d s)
  unfolding get_session ◌>>=◌
  get_session-Takes s = unfold on_throw in leased-Takes (leased s) (d.lease s) (lease_takes s)

  module _ {A : Type 0} (body : Effect Db A) (keep : (n : ℕ) → Keeps (λ s. leased s ≡ n) body) where
    ended :
        (n : ℕ) (r : Result ℕ × Db)
        → Takes leased n r
        → leased (continued r (λ pos. finally body (give_back pos))).1 ≡ n
    unfolding finally
    ended n (ok pos, s) h = freed pos n _ ((keep (n + 1)).after s h)
    ended n (throws e, s) h = h

    -- After a call under a session of its own as many sessions are leased as before it.
    pub with_session-Keeps : (n : ℕ) → Keeps (λ s. leased s ≡ n) (with_session d body)
    unfolding with_session
    with_session-Keeps n = record {
      after = λ s h.
          unfold ◌>>=◌ in
          ended n (get_session d s)
            (subst (λ k. Takes leased k (get_session d s)) h (get_session-Takes s));
    }
