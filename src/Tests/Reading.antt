-- ===== src/Tests/Reading.antt =====
-- The theorems on get_userresource, get_refund and the queries on proposals at a concrete database of
-- the chain.
use eos_sql_db_plugin.Base.{ℕ, refl, ◌==◌, if◌then◌else◌, ◌≡◌, true, length, some, List, [], ◌∷◌}
use eos_sql_db_plugin.Base.Int.{pos}
use eos_sql_db_plugin.Effect.{ok, unknown, bind_result, ◌>>=◌, finally, on_throw}
use eos_sql_db_plugin.Chain.{Asset}
use eos_sql_db_plugin.Api.Chainbase.{
  Chainbase, get_abi, walk_key_value_table, walk_table, walk_rows,
}
use eos_sql_db_plugin.Api.Resources.{RowReader, no_userresource, get_userresource}
use eos_sql_db_plugin.Sql.{Driver, Reply, text, IsBound}
use eos_sql_db_plugin.Session.{with_session, get_session, reconnect_ptr}
use eos_sql_db_plugin.Actions.Statements.{proposals_like}
use eos_sql_db_plugin.Actions.Like.{proposals_like-IsBound}
use eos_sql_db_plugin.Api.Proposals.{
  passed, not_authorized, failed, MsigReader, Proposal, on_proposal, fill_pro, walk_proposals,
  on_mine, walk_approvals, msig_serializer, get_my_proposals, get_pending_proposal,
  get_pending_proposals,
}
use eos_sql_db_plugin.Api.Proposals.Rows.{listed}
use eos_sql_db_plugin.Api.Proposals.Walks.{msig_rows}
use eos_sql_db_plugin.Api.Proposals.Callbacks.{read_mine, read_named}
use eos_sql_db_plugin.Api.Proposals.Answers.{
  read_stored, all_listed, get_my_proposals-eq-listed, get_pending_proposal-eq-listed,
  get_pending_proposals-eq-all_listed,
}
use eos_sql_db_plugin.Api.Latest.{latest_row, userresource_of, get_userresource-eq-latest_row}

abbrev sys : Asset
sys = record { amount = pos 5; decimals = 4; symbol_name = "SYS" }

-- Every account is a token contract, and every table has two rows.
abbrev pub chain : Chainbase
chain = record {
  find_account = λ account. some (1 ∷ []);
  AbiDef = List ℕ;
  tables_of = λ abi. record { name = "accounts"; index_type = "i64" } ∷ [];
  to_abi = λ bytes. ok (bytes, true);
  find_table = λ code scope table. some 1;
  rows_of = λ t_id. (1 ∷ 2 ∷ []) ∷ (3 ∷ 4 ∷ []) ∷ [];
  sizeof_asset = 2;
  unpack_asset = λ bytes. ok sys;
  symbol_valid = λ a. true;
  zero_asset = λ precision name. ok sys;
  precision_of = λ a. 10000;
  to_string = λ n. "5";
}

abbrev pub reader : RowReader chain
reader = record {
  Serializer = List ℕ;
  Variant = List ℕ;
  serializer_of = λ abi. ok abi;
  binary_to_variant = λ abis type bytes. ok bytes;
  asset_of_field = λ v field. ok (record sys { amount = pos (length v) });
  int64_of_field = λ v field. ok (pos (length v));
  text_of_field = λ v field. ok field;
  default_asset = sys;
  sizeof_userresource = 2;
}

get_userresource-eq-latest_row_example :
    get_userresource chain reader "alice"
    ≡ latest_row chain reader
        (userresource_of chain reader)
        (no_userresource chain reader)
        "alice"
        "userres"
get_userresource-eq-latest_row_example = get_userresource-eq-latest_row chain reader "alice"

-- A transaction is its bytes, and is authorized by a row that begins with 1.
abbrev pub msig : MsigReader chain reader
msig = record {
  Trx = List ℕ;
  Permissions = List ℕ;
  table_type = λ abis table. table;
  name_of_field = λ v field. ok field;
  json_of_field = λ v field. ok field;
  string_of_field = λ v field. ok "0a0b";
  from_hex = λ hex size. ok (size ∷ []);
  unpack_transaction = λ blob. ok blob;
  to_variant = λ resolver trx. ok trx;
  json_of_variant = λ v. "{}";
  permissions_of_field = λ v field. ok v;
  check_authorization =
      λ trx v. elim v [ [] ↦ failed unknown | n ∷ ns ↦ if n == 1 then passed else not_authorized ];
  name_of_text = λ s. ok s;
  string_to_name = λ s. s;
}

abbrev described : ℕ → Proposal
described status = record {
  proposer = "alice";
  proposal_name = "proposal_name";
  transaction = "{}";
  requested_approvals = "requested_approvals";
  provided_approvals = "provided_approvals";
  status = status;
}

-- The first row of the table approvals is authorized, the second is not.
get_my_proposals_test :
    get_my_proposals chain reader msig 7 "alice" ≡ ok (described 1 ∷ described 0 ∷ [])
unfolding get_my_proposals get_abi walk_approvals walk_proposals walk_key_value_table walk_table
    walk_rows on_mine on_proposal fill_pro ◌>>=◌
get_my_proposals_test = refl

get_my_proposals-eq-listed_example :
    get_my_proposals chain reader msig 7 "alice"
    ≡ bind_result (msig_serializer chain reader msig) (λ abis.
      listed
        (read_mine chain reader msig abis "alice")
        (msig_rows chain reader msig "alice" "approvals"))
get_my_proposals-eq-listed_example = get_my_proposals-eq-listed chain reader msig 7 "alice"

get_pending_proposal-eq-listed_example :
    get_pending_proposal chain reader msig 7 "alice" "proposal_name"
    ≡ bind_result (msig_serializer chain reader msig) (λ abis.
      listed
        (read_named chain reader msig abis "alice" "proposal_name")
        (msig_rows chain reader msig "alice" "approvals"))
get_pending_proposal-eq-listed_example =
    get_pending_proposal-eq-listed chain reader msig 7 "alice" "proposal_name"

abbrev one_stored : Reply
one_stored = record { rows = (text "alice" ∷ text "proposal_name" ∷ []) ∷ []; affected_rows = 0 }

-- Answers every statement by one stored proposal.
abbrev pub storing : Driver
storing = record {
  Db = ℕ;
  connect = λ i uri n. (ok tt, n);
  lease = λ n. (ok 0, n);
  give_back = λ pos n. n;
  mysql_ping = λ n. (ok 0, n);
  reconnect = λ n. (ok tt, n);
  execute = λ st n. (ok one_stored, n);
}

stored_read : with_session storing (storing.execute (proposals_like "bob")) 0 ≡ (ok one_stored, 0)
unfolding with_session get_session reconnect_ptr finally on_throw ◌>>=◌
stored_read = refl

get_pending_proposals-eq-all_listed_example :
    get_pending_proposals chain reader msig storing 7 "bob" 0 ≡ (
      bind_result
          (msig_serializer chain reader msig)
          (λ abis. all_listed (read_stored chain reader msig abis) one_stored.rows),
      0,
    )
get_pending_proposals-eq-all_listed_example =
    get_pending_proposals-eq-all_listed chain reader msig storing 7 "bob" 0 0 one_stored stored_read

proposals_like-IsBound_example : IsBound (proposals_like "bob")
proposals_like-IsBound_example = proposals_like-IsBound "bob" refl
