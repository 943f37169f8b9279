-- ===== src/Tests/Starting.antt =====
-- The theorem on the row of the system account at a concrete server.
use eos_sql_db_plugin.Base.{
  Bool, false, not, ◌||◌, List, eq_iff, ℕ, String, ◌≡◌, ◌≢◌, refl, true, some, [], ◌∷◌, str_eq,
  if◌then◌else◌,
}
use eos_sql_db_plugin.Base.Int.{pos}
use eos_sql_db_plugin.Effect.{mysql_soci_error, throws, Effect, ok, ◌>>=◌, finally, on_throw}
use eos_sql_db_plugin.Sql.{
  Pool, of_sql_db, of_db_blocks, Pools, driver, Reply, number, text, Value, attempt,
}
use eos_sql_db_plugin.Tables.Accounts
use eos_sql_db_plugin.Tables.Accounts.{accounts_insert, accounts_count}
use eos_sql_db_plugin.Session.{
  open_from, soci_session_pool, reconnect_ptr, get_session, with_session,
}
use eos_sql_db_plugin.Database.{SqlDatabase, sql_database, sql_database_filtered, wipe, is_started}
use eos_sql_db_plugin.Plugin.{SqlDbPluginImpl, start_with, plugin_initialize}
use eos_sql_db_plugin.Plugin.Fresh.{plugin_initialize-rows_after}
use eos_sql_db_plugin.Database.Started.{inserted, AccountsLaws}
use eos_sql_db_plugin.Tests.Worlds.{no_rows, plain}
use eos_sql_db_plugin.Tests.Answering.{boost, options}

-- The names that have a row. An INSERT of a second row of a name, and one of an ABI without a text,
-- is refused.
abbrev Names : Type 0
Names = (name : String) → Bool

abbrev rows_of : Names → String → ℕ
rows_of s name = if s name then 1 else 0

abbrev accepted : (abi : String) → Bool
accepted abi = not (str_eq abi "")

abbrev insert : (refused : Bool) → (name : String) → Effect Names Reply
insert true name s = (throws mysql_soci_error, s)
insert false name s = (ok no_rows, λ other. str_eq name other || s other)

abbrev answer : (query : Bool) → List Value → Effect Names Reply
answer true (text name ∷ text abi ∷ []) s = insert (s name || not (accepted abi)) name s
answer false (text name ∷ []) s =
    (ok (record { rows = (number (pos (rows_of s name)) ∷ []) ∷ []; affected_rows = 0 }), s)
answer _ _ s = (throws mysql_soci_error, s)

abbrev pub server : Pools
server = record {
  Db = Names;
  connect = λ pool i uri n. (ok tt, n);
  lease = λ pool n. (ok 0, n);
  give_back = λ pool i n. n;
  mysql_ping = λ pool n. (ok 0, n);
  reconnect = λ pool n. (ok tt, n);
  execute = λ pool st. answer (str_eq st.query (accounts_insert "" "").query) st.uses;
}

insert-rows :
    (has ok_abi : Bool) (name : String) (s : Names)
    → s name ≡ has
    → rows_of (insert (has || not ok_abi) name s).1 name ≡ inserted ok_abi (if has then 1 else 0)
insert-rows true true name s h = rw h refl
insert-rows true false name s h = rw h refl
insert-rows false true name s h =
    let same : str_eq name name ≡ true = (eq_iff name name).1 refl in rw same refl
insert-rows false false name s h = rw h refl

abbrev server_laws : (pool : Pool) → AccountsLaws (driver server pool) rows_of
server_laws pool = record {
  accepts = accepted;
  counts = λ name s. (
    record { rows = (number (pos (rows_of s name)) ∷ []) ∷ []; affected_rows = 0 },
    s,
    refl,
    refl,
    refl,
  );
  inserts = λ name abi s. (_, _, refl, insert-rows (s name) (accepted abi) name s refl);
  connect_keeps = λ i uri name n. record { after = λ s h. h };
  lease_keeps = λ name n. record { after = λ s h. h };
  give_back_keeps = λ i s name. refl;
  ping_keeps = λ name n. record { after = λ s h. h };
  reconnect_keeps = λ name n. record { after = λ s h. h };
}

abbrev database : SqlDatabase
database = record {
  system_account = "eosio";
  m_block_num_start = 0;
  m_action_filter_on = [];
  m_contract_filter_out = [];
}

abbrev pub running : SqlDbPluginImpl
running = record {
  chain_plug = true;
  contract_filter_out = [];
  sql_db = some database;
  handler = some (record database { m_action_filter_on = "transfer" ∷ [] }, 5000);
  applied_transaction_connection = some 0;
}

abbrev pub none_named : Names
none_named name = false

abbrev pub system_named : Names
system_named name = str_eq "eosio" name || false

-- On a new database, the start adds the row.
pub new_database :
    plugin_initialize server plain boost (options (some "mysql://db")) (pos 0) true none_named
    ≡ (ok running, system_named)
unfolding plugin_initialize start_with sql_database sql_database_filtered soci_session_pool
    open_from wipe is_started with_session get_session reconnect_ptr finally on_throw attempt
    Accounts.exist Accounts.add_eosio ◌>>=◌
new_database = refl

full : ◌≢◌ {A = String} "mysql://db" ""
full e = cc

plugin_initialize-rows_after_example : ◌≡◌ {A = ℕ} 1 1
plugin_initialize-rows_after_example =
    plugin_initialize-rows_after server plain rows_of (server_laws of_sql_db)
      (server_laws of_db_blocks) boost (options (some "mysql://db")) "mysql://db" (pos 0) true
      none_named system_named running refl full new_database

-- A second row is refused, and an ABI without a text.
refused_test :
    (answer true (text "eosio" ∷ text "abi" ∷ []) system_named
      ≡ (throws mysql_soci_error, system_named))
    × (answer true (text "eosio" ∷ text "" ∷ []) none_named ≡ (throws mysql_soci_error, none_named))
refused_test = (refl, refl)
