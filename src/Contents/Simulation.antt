-- ===== src/Contents/Simulation.antt =====
-- That actions_table::add (sql_db_plugin/db/actions_table.cpp) does on any server that answers its
-- statements as MySQL documents them what it does on the reference.
use eos_sql_db_plugin.Base.{ℕ, String, Option, none, some}
use eos_sql_db_plugin.Effect.{
  Exception, fc_exception, mysql_soci_error, std_exception, unknown, pure, ◌>>◌,
}
use eos_sql_db_plugin.Effect.Simulates.{
  Simulates, Simulates-pure, Simulates-lift, Simulates-try_catch, Simulates-bind,
  Simulates-for_each, simulates_rules,
}
use eos_sql_db_plugin.Sql.{Driver, Statement, attempt}
use eos_sql_db_plugin.Chain.{Action, NewAccount, SetAbi, ChainLib}
use eos_sql_db_plugin.Actions.Statements.{key_insert}
use eos_sql_db_plugin.Actions.AddData.{
  select_abi, store_abi, decode_data, setabi_data, unpack_handler, add_data,
}
use eos_sql_db_plugin.Actions.Parse.{
  record_newaccount, record_vote, record_proposal, erase_proposal, record_asset, record_action,
  abi_of, parse_with, parse_actions,
}
use eos_sql_db_plugin.Actions.Add.{record_row}
use eos_sql_db_plugin.Actions.Issued.{
  Issued, abi_selected, abi_stored, account_named, key_given, vote_cast, proposed, proposal_ended,
  asset_created, row_inserted,
}
use eos_sql_db_plugin.Contents.{Contents, Server}
use eos_sql_db_plugin.Contents.Reference.{reference}

module _ (d : Driver) (c : ChainLib) (sv : Server) (view : d.Db → Contents)
    (answers : (st : Statement)
      → Issued st
      → Simulates view (d.execute st) ((reference sv).execute st)) where
  abbrev ref : Driver
  ref = reference sv

  attempt-Simulates : (st : Statement) → Issued st → Simulates view (attempt d st) (attempt ref st)
  unfolding attempt
  attempt-Simulates st i =
      Simulates-try_catch _ _ _ _ (Simulates-bind _ _ _ _ (answers st i) (λ _. Simulates-pure tt))
        (λ _. Simulates-pure tt)

  select_abi-Simulates :
      (account : String) → Simulates view (select_abi d c account) (select_abi ref c account)
  unfolding select_abi
  select_abi-Simulates account =
      Simulates-bind _ _ _ _ (answers _ (abi_selected account)) (λ _. Simulates-pure _)

  decode_data-Simulates :
      (action : Action) → Simulates view (decode_data d c action) (decode_data ref c action)
  unfolding decode_data
  decode_data-Simulates action = search (simulates_rules, select_abi-Simulates) depth 9

  store_abi-Simulates :
      (s : SetAbi) (json : String) → Simulates view (store_abi d c s json) (store_abi ref c s json)
  unfolding store_abi
  store_abi-Simulates s json =
      Simulates-bind _ _ _ _ (attempt-Simulates _ (abi_stored s.account json))
        (λ _. Simulates-pure json)

  unpack_handler-Simulates :
      (action : Action) (e : Exception)
      → Simulates view (unpack_handler d c action e) (unpack_handler ref c action e)
  unpack_handler-Simulates action fc_exception = decode_data-Simulates action
  unpack_handler-Simulates action mysql_soci_error = Simulates-lift _
  unpack_handler-Simulates action std_exception = Simulates-lift _
  unpack_handler-Simulates action unknown = Simulates-lift _

  setabi_data-Simulates :
      (action : Action) → Simulates view (setabi_data d c action) (setabi_data ref c action)
  unfolding setabi_data
  setabi_data-Simulates action =
      search (simulates_rules, store_abi-Simulates, unpack_handler-Simulates) depth 9

  pub add_data-Simulates :
      (action : Action) → Simulates view (add_data d c action) (add_data ref c action)
  unfolding add_data
  add_data-Simulates action = search (simulates_rules, setabi_data-Simulates, decode_data-Simulates)

  key-Simulates :
      (name key permission : String)
      → Simulates view
          (d.execute (key_insert name key permission) >> pure tt)
          (ref.execute (key_insert name key permission) >> pure tt)
  key-Simulates name key permission =
      Simulates-bind _ _ _ _ (answers _ (key_given name key permission)) (λ _. Simulates-pure tt)

  record_newaccount-Simulates :
      (a : NewAccount) → Simulates view (record_newaccount d c a) (record_newaccount ref c a)
  unfolding record_newaccount
  record_newaccount-Simulates a = Simulates-bind _ _ _ _ (answers _ (account_named a.name)) (λ _.
      Simulates-bind _ _ _ _
        (Simulates-for_each a.owner_keys _ _ (λ key. key-Simulates a.name key "owner"))
        (λ _. Simulates-for_each a.active_keys _ _ (λ key. key-Simulates a.name key "active")))

  ruleset attempts = (
    simulates_rules, attempt-Simulates, vote_cast, proposed, proposal_ended, asset_created,
    row_inserted,
  )

  record_action-Simulates :
      (action : Action) (v : c.Variant)
      → Simulates view (record_action d c action v) (record_action ref c action v)
  unfolding record_action record_vote record_proposal erase_proposal record_asset
  record_action-Simulates action v = search (attempts, record_newaccount-Simulates) depth 12

  parse_with-Simulates :
      (action : Action) (abi : Option c.Abi)
      → Simulates view (parse_with d c action abi) (parse_with ref c action abi)
  unfolding parse_with
  parse_with-Simulates action none = Simulates-pure tt
  parse_with-Simulates action (some abi) = search (simulates_rules, record_action-Simulates) depth 9

  parse_actions-Simulates :
      (action : Action) → Simulates view (parse_actions d c action) (parse_actions ref c action)
  unfolding parse_actions abi_of
  parse_actions-Simulates action =
      search (simulates_rules, select_abi-Simulates, parse_with-Simulates) depth 9

  pub record_row-Simulates :
      (action : Action) (id : String) (time : ℕ)
      → Simulates view (record_row d c action id time) (record_row ref c action id time)
  unfolding record_row
  record_row-Simulates action id time =
      search (attempts, add_data-Simulates, parse_actions-Simulates) depth 12
