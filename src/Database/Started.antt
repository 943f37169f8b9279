-- ===== src/Database/Started.antt =====
-- The row of the system account in the table accounts over the constructors, is_started and wipe of
-- sql_database (sql_db_plugin/db/database.cpp).
use eos_sql_db_plugin.Base.{
  Bool, true, false, ℕ, zero, suc, ◌+◌, String, ◌≡◌, refl, ap, ◌∙◌, List, [], ◌∷◌,
}
use eos_sql_db_plugin.Base.Int.{ℤ, pos, is_positive}
use eos_sql_db_plugin.Effect.{Result, ok, throws, Effect, ◌>>=◌, on_throw, cleaned}
use eos_sql_db_plugin.Effect.Keeps.{Keeps, Keeps-pure, Keeps-bind, keeps_rules}
use eos_sql_db_plugin.Effect.Hoare.{
  Triple, Triple-of, Triple-Keeps, Triple-pure, Triple-bind, Triple-finally,
}
use eos_sql_db_plugin.Sql.{Statement, Driver, Reply, number, attempt}
use eos_sql_db_plugin.Chain.{ChainLib}
use eos_sql_db_plugin.Tables.Accounts
use eos_sql_db_plugin.Tables.Accounts.{accounts_insert, accounts_count}
use eos_sql_db_plugin.Session.{
  open_from, soci_session_pool, reconnect_ptr, get_session, with_session,
}
use eos_sql_db_plugin.Session.Leases.{reconnect_ptr-Keeps}
use eos_sql_db_plugin.Database.{SqlDatabase, sql_database, sql_database_filtered, wipe, is_started}

-- The rows of a name after an INSERT, by whether its ABI is accepted: the name is the unique key, so
-- that a second row is refused.
abbrev pub inserted : (accepted : Bool) → ℕ → ℕ
inserted true zero = 1
inserted true (suc n) = suc n
inserted false n = n

-- A server that executes the two statements as MySQL documents them for a table with the unique key
-- `name`, by the number of rows that the table accounts has of a name. `accepts` are the texts that a
-- column of type json accepts. An INSERT that is refused leaves the table alone: whether it throws is
-- left open. The pools only hand out connections.
pub record AccountsLaws (d : Driver) (rows_of : d.Db → (name : String) → ℕ) : Type 0 where
  pub accepts : (json : String) → Bool
  pub counts :
      (name : String) (s : d.Db)
      → (r : Reply) × (t : d.Db) × (d.execute (accounts_count name) s ≡ (ok r, t))
        × (r.rows ≡ (number (pos (rows_of s name)) ∷ []) ∷ [])
        × (rows_of t name ≡ rows_of s name)
  pub inserts :
      (name abi : String) (s : d.Db)
      → (r : Result Reply) × (t : d.Db) × (d.execute (accounts_insert name abi) s ≡ (r, t))
        × (rows_of t name ≡ inserted (accepts abi) (rows_of s name))
  pub connect_keeps :
      (i : ℕ) (uri name : String) (n : ℕ) → Keeps (λ s. rows_of s name ≡ n) (d.connect i uri)
  pub lease_keeps : (name : String) (n : ℕ) → Keeps (λ s. rows_of s name ≡ n) d.lease
  pub give_back_keeps :
      (i : ℕ) (s : d.Db) (name : String) → rows_of (d.give_back i s) name ≡ rows_of s name
  pub ping_keeps : (name : String) (n : ℕ) → Keeps (λ s. rows_of s name ≡ n) d.mysql_ping
  pub reconnect_keeps : (name : String) (n : ℕ) → Keeps (λ s. rows_of s name ≡ n) d.reconnect

attempt-answer :
    (d : Driver) (st : Statement) (s t : d.Db) (r : Result Reply)
    → d.execute st s ≡ (r, t)
    → attempt d st s ≡ (ok tt, t)
unfolding attempt ◌>>=◌
attempt-answer d st s t (ok a) e = rw e refl
attempt-answer d st s t (throws x) e = rw e refl

module _ (d : Driver) (rows_of : d.Db → String → ℕ) (laws : AccountsLaws d rows_of)
    (name : String) where
  open d use {Db, give_back}
  open laws use {
    accepts, counts, inserts, connect_keeps, lease_keeps, give_back_keeps, ping_keeps,
    reconnect_keeps,
  }

  abbrev pub Has : ℕ → Db → Type 0
  Has n s = rows_of s name ≡ n

  open_from-Keeps : (n i left : ℕ) (uri : String) → Keeps (Has n) (open_from d i left uri)
  unfolding open_from
  open_from-Keeps n i zero uri = Keeps-pure tt
  open_from-Keeps n i (suc left) uri =
      Keeps-bind _ _ (connect_keeps i uri name n) (λ _. open_from-Keeps n (i + 1) left uri)

  reconnecting : (n : ℕ) → Keeps (Has n) (reconnect_ptr d)
  reconnecting n = reconnect_ptr-Keeps d (ping_keeps name n) (reconnect_keeps name n)

  cleaned_after :
      {A : Type 0} (n i : ℕ) (r : Result A × Db) → Has n r.1 → Has n (cleaned r (give_back i)).1
  cleaned_after n i (ok a, s) h = h
  cleaned_after n i (throws e, s) h = give_back_keeps i s name ∙ h

  on_throw-Keeps :
      {A : Type 0} (n i : ℕ) (m : Effect Db A)
      → Keeps (Has n) m
      → Keeps (Has n) (on_throw m (give_back i))
  unfolding on_throw
  on_throw-Keeps n i m k = record { after = λ s h. cleaned_after n i (m s) (k.after s h) }

  get_session-Keeps : (n : ℕ) → Keeps (Has n) (get_session d)
  unfolding get_session
  get_session-Keeps n = search (keeps_rules, lease_keeps, on_throw-Keeps, reconnecting)

  with_session-Triple :
      {A : Type 0} (n k : ℕ) (body : Effect Db A) (Q : A → Type 0)
      → Triple (Has n) body (λ a s. Q a × Has k s)
      → Triple (Has n) (with_session d body) (λ a s. Q a × Has k s)
  unfolding with_session
  with_session-Triple n k body Q t =
      Triple-bind _ (λ _. Has n) _
        (λ i.
          Triple-finally body (give_back i) _ t (λ a s h. (h.0, give_back_keeps i s name ∙ h.1)))
        (get_session d) (Triple-Keeps (get_session d) (get_session-Keeps n))

  exist-Triple :
      (n : ℕ) (uninitialised : ℤ)
      → Triple
          (Has n)
          (Accounts.exist d uninitialised name)
          (λ a s. (a ≡ is_positive (pos n)) × Has n s)
  exist-Triple n uninitialised =
      Triple-of _ (λ a s. (a ≡ is_positive (pos n)) × Has n s)
        (λ s h.
          let (r, t, e, rows, same) = counts name s in
          (
            is_positive (pos n),
            t,
            unfold Accounts.exist ◌>>=◌ in rw (e, rows, h) refl,
            (refl, same ∙ h),
          ))

  -- Whatever the INSERT answers is caught.
  attempt-Triple :
      (P Q : Db → Type 0) (st : Statement)
      → ((s : Db) → P s → (r : Result Reply) × (t : Db) × (d.execute st s ≡ (r, t)) × Q t)
      → Triple P (attempt d st) (λ a s. (a ≡ tt) × Q s)
  attempt-Triple P Q st h =
      Triple-of _ (λ a s. (a ≡ tt) × Q s)
        (λ s p. let (r, t, e, q) = h s p in (tt, t, attempt-answer d st s t r e, (refl, q)))

  add_eosio-Triple :
      (n : ℕ) (abi : String)
      → Triple
          (Has n)
          (Accounts.add_eosio d name abi)
          (λ a s. (a ≡ tt) × Has (inserted (accepts abi) n) s)
  unfolding Accounts.add_eosio
  add_eosio-Triple n abi =
      attempt-Triple (Has n) (Has (inserted (accepts abi) n)) (accounts_insert name abi) (λ s h.
        let (r, t, e, rows) = inserts name abi s in (r, t, e, rows ∙ ap (inserted (accepts abi)) h))

  module _ (c : ChainLib) (self : SqlDatabase) (own : self.system_account ≡ name) where
    pub is_started-Triple :
        (n : ℕ) (uninitialised : ℤ)
        → Triple
            (Has n)
            (is_started d c self uninitialised)
            (λ a s. (a ≡ is_positive (pos n)) × Has n s)
    unfolding is_started
    is_started-Triple n uninitialised =
        rw own
          (with_session-Triple n n _ (λ a. a ≡ is_positive (pos n)) (exist-Triple n uninitialised))

    pub wipe-Triple :
        (n : ℕ)
        → Triple
            (Has n)
            (wipe d c self)
            (λ a s. (a ≡ tt) × Has (inserted (accepts (c.json_of_abi c.eosio_contract_abi)) n) s)
    unfolding wipe
    wipe-Triple n = rw own (
        with_session-Triple n _ _ (λ a. a ≡ tt)
          (add_eosio-Triple n (c.json_of_abi c.eosio_contract_abi)))

  pub sql_database-Triple :
      (c : ChainLib) (n : ℕ) (uri : String) (start pool_size : ℕ)
      → Triple
          (Has n)
          (sql_database d c uri start pool_size)
          (λ self s. (self.system_account ≡ c.system_account_name) × Has n s)
  unfolding sql_database soci_session_pool
  sql_database-Triple c n uri start pool_size =
      Triple-bind _ (λ _. Has n) _ (λ opened. Triple-pure _ _ (λ s h. (refl, h))) _
        (Triple-Keeps _ (open_from-Keeps n 0 pool_size uri))

  pub sql_database_filtered-Triple :
      (c : ChainLib) (n : ℕ) (uri : String) (start pool_size : ℕ) (on out : List String)
      → Triple
          (Has n)
          (sql_database_filtered d c uri start pool_size on out)
          (λ self s. (self.system_account ≡ c.system_account_name) × Has n s)
  unfolding sql_database_filtered
  sql_database_filtered-Triple c n uri start pool_size on out =
      Triple-bind _ (λ self s. (self.system_account ≡ c.system_account_name) × Has n s) _
        (λ self. Triple-pure _ _ (λ s h. h)) _ (sql_database-Triple c n uri start pool_size)
