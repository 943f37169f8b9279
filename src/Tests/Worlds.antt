-- ===== src/Tests/Worlds.antt =====
-- Concrete drivers and chain libraries for the tests.
use eos_sql_db_plugin.Base.{ℕ, ◌+◌, ◌-◌, ◌≡◌, refl, String, List, [], ◌∷◌}
use eos_sql_db_plugin.Base.Int.{pos}
use eos_sql_db_plugin.Effect.{Exception, fc_exception, Result, ok, throws}
use eos_sql_db_plugin.Effect.Keeps.{Keeps}
use eos_sql_db_plugin.Sql.{Driver, Pools, Statement, Reply, IsBound}
use eos_sql_db_plugin.Session.Leases.{LeaseLaws}
use eos_sql_db_plugin.Chain.{Action, ActionTraces, end, trace, SystemContractArg, ChainLib}

abbrev pub no_rows : Reply
no_rows = record { rows = []; affected_rows = 0 }

-- Counts the sessions leased.
abbrev pub counting : Driver
counting = record {
  Db = ℕ;
  connect = λ i uri n. (ok tt, n);
  lease = λ n. (ok n, n + 1);
  give_back = λ pos n. n - 1;
  mysql_ping = λ n. (ok 1, n);
  reconnect = λ n. (ok tt, n);
  execute = λ st n. (ok no_rows, n);
}

-- Counts the sessions leased of both pools together.
abbrev pub counting_both : Pools
counting_both = record {
  Db = ℕ;
  connect = λ pool i uri n. (ok tt, n);
  lease = λ pool n. (ok n, n + 1);
  give_back = λ pool pos n. n - 1;
  mysql_ping = λ pool n. (ok 1, n);
  reconnect = λ pool n. (ok tt, n);
  execute = λ pool st n. (ok no_rows, n);
}

pub lease_adds_one : (n : ℕ) → n + 1 ≡ n + 1
lease_adds_one n = refl

abbrev pub counting_laws : LeaseLaws counting
counting_laws = record {
  leased = λ n. n;
  lease_takes = λ n. lease_adds_one n;
  give_back_frees = λ pos n. refl;
  ping_keeps = λ n. record { after = λ s h. h };
  reconnect_keeps = λ n. record { after = λ s h. h };
  execute_keeps = λ n st. record { after = λ s h. h };
}

-- Keeps the statements that it executes, newest first.
abbrev pub logging : Driver
logging = record {
  Db = List Statement;
  connect = λ i uri l. (ok tt, l);
  lease = λ l. (ok 0, l);
  give_back = λ pos l. l;
  mysql_ping = λ l. (ok 0, l);
  reconnect = λ l. (ok tt, l);
  execute = λ st l. (ok no_rows, st ∷ l);
}

abbrev pub AllBound : List Statement → Type 0
AllBound [] = Unit {0}
AllBound (st ∷ l) = IsBound st × AllBound l

pub logging-AllBound : (st : Statement) → IsBound st → Keeps AllBound (logging.execute st)
logging-AllBound st b = record { after = λ l h. (b, h) }

-- Fails every statement.
abbrev pub failing : Exception → Driver
failing e = record {
  Db = ℕ;
  connect = λ i uri n. (ok tt, n);
  lease = λ n. (ok n, n);
  give_back = λ pos n. n;
  mysql_ping = λ n. (ok 0, n);
  reconnect = λ n. (ok tt, n);
  execute = λ st n. (throws e, n);
}

abbrev pub no_arg : SystemContractArg
no_arg = record { to = ""; from = ""; receiver = ""; payer = ""; name = ""; account = "" }

abbrev pub transfer : Action
transfer = record { account = "eosio.token"; name = "transfer"; authorization = []; bytes = 7 ∷ [] }

abbrev pub issue : Action
issue = record { account = "eosio.token"; name = "issue"; authorization = []; bytes = 8 ∷ [] }

-- An empty text is no argument.
abbrev arg_of : String → Result SystemContractArg
arg_of String.[] = throws fc_exception
arg_of (String.◌∷◌ c s) = ok no_arg

-- A chain library whose texts are their own values.
abbrev pub plain : ChainLib
plain = record {
  Abi = String;
  Serializer = String;
  Variant = String;
  system_account_name = "eosio";
  sec_since_epoch = λ n. n;
  abi_of_json = λ s. ok s;
  json_of_abi = λ a. a;
  unpack_abi = λ bytes. ok "abi";
  eosio_contract_abi = "eosio abi";
  set_abi = λ abi time. ok abi;
  get_action_type = λ abis name. name;
  binary_to_variant = λ abis type bytes time. ok type;
  json_of_variant = λ v. v;
  json_of_field = λ v field. ok field;
  name_of_field = λ v field. ok field;
  asset_of_field = λ v field. ok (record { amount = pos 0; decimals = 4; symbol_name = "SYS" });
  json_of_authorization = λ a. "[]";
  arg_of_json = arg_of;
  as_newaccount =
      λ bytes. ok (record { name = "bob"; owner_keys = "k1" ∷ []; active_keys = "k2" ∷ "k3" ∷ [] });
  as_setabi = λ bytes. ok (record { account = "eosio.token"; abi = 1 ∷ [] });
  unpack_transaction = λ raw. ok (record { id = "trx"; actions = transfer ∷ issue ∷ [] });
}

-- issue, with the transfer as its inline action; then a notification of the transfer to bob; then the
-- transfer, with an inline issue.
abbrev pub traces : ActionTraces
traces = trace "eosio.token" issue (trace "eosio.token" transfer end end) (
    trace "bob" transfer end (trace "eosio.token" transfer (trace "eosio.token" issue end end) end))
