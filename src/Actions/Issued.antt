-- ===== src/Actions/Issued.antt =====
-- The statements that actions_table::add gives to the driver.
use eos_sql_db_plugin.Base.{ℕ, String, Option, none, some, List}
use eos_sql_db_plugin.Effect.{Exception, fc_exception}
use eos_sql_db_plugin.Effect.Keeps.{
  Keeps, Keeps-pure, Keeps-lift, Keeps-try_catch, Keeps-bind, Keeps-for_each, keeps_rules,
}
use eos_sql_db_plugin.Sql.{Driver, Statement, attempt}
use eos_sql_db_plugin.Chain.{Action, Asset, NewAccount, SetAbi, SystemContractArg, ChainLib}
use eos_sql_db_plugin.Actions.Statements.{
  actions_insert, abi_select, abi_upsert, account_upsert, key_insert, vote_upsert, proposal_upsert,
  proposal_delete, asset_replace,
}
use eos_sql_db_plugin.Actions.AddData.{
  select_abi, store_abi, decode_data, setabi_data, unpack_handler, add_data,
}
use eos_sql_db_plugin.Actions.Parse.{
  record_newaccount, record_vote, record_proposal, erase_proposal, record_asset, record_action,
  parse_with, parse_actions,
}
use eos_sql_db_plugin.Actions.Add.{record_row, add}

-- One constructor for each place of the source where `add` builds a statement.
pub data Issued : Statement → Type 0 where
  abi_selected : (account : String) → Issued (abi_select account)
  abi_stored : (account json : String) → Issued (abi_upsert account json)
  account_named : (name : String) → Issued (account_upsert name)
  key_given : (account key permission : String) → Issued (key_insert account key permission)
  vote_cast : (voter proxy producers : String) → Issued (vote_upsert voter proxy producers)
  proposed :
      (proposer proposal_name requested : String)
      → Issued (proposal_upsert proposer proposal_name requested)
  proposal_ended :
      (proposer proposal_name : String) → Issued (proposal_delete proposer proposal_name)
  asset_created :
      (supply : Asset) (issuer owner : String) → Issued (asset_replace supply issuer owner)
  row_inserted :
      (action : Action) (time : ℕ) (json json_auth id : String) (arg : SystemContractArg)
      → Issued (actions_insert action time json json_auth id arg)

module _ (d : Driver) (c : ChainLib) (P : d.Db → Type 0)
    (issued : (st : Statement) → Issued st → Keeps P (d.execute st)) where
  attempt-Keeps : (st : Statement) → Issued st → Keeps P (attempt d st)
  unfolding attempt
  attempt-Keeps st b =
      Keeps-try_catch _ _ (Keeps-bind _ _ (issued st b) (λ _. Keeps-pure tt)) (λ _. Keeps-pure tt)

  select_abi-Keeps : (account : String) → Keeps P (select_abi d c account)
  unfolding select_abi
  select_abi-Keeps account =
      Keeps-bind _ _ (issued (abi_select account) (abi_selected account)) (λ _. Keeps-pure _)

  store_abi-Keeps : (s : SetAbi) (json : String) → Keeps P (store_abi d c s json)
  unfolding store_abi
  store_abi-Keeps s json =
      Keeps-bind _ _ (attempt-Keeps (abi_upsert s.account json) (abi_stored s.account json))
        (λ _. Keeps-pure json)

  decode_data-Keeps : (action : Action) → Keeps P (decode_data d c action)
  unfolding decode_data
  decode_data-Keeps action = search (keeps_rules, select_abi-Keeps) depth 9

  unpack_handler-Keeps : (action : Action) (e : Exception) → Keeps P (unpack_handler d c action e)
  unpack_handler-Keeps action fc_exception = decode_data-Keeps action
  unpack_handler-Keeps action _ = Keeps-lift _

  setabi_data-Keeps : (action : Action) → Keeps P (setabi_data d c action)
  unfolding setabi_data
  setabi_data-Keeps action = search (keeps_rules, store_abi-Keeps, unpack_handler-Keeps) depth 9

  pub add_data-Keeps : (action : Action) → Keeps P (add_data d c action)
  unfolding add_data
  add_data-Keeps action = search (keeps_rules, setabi_data-Keeps, decode_data-Keeps)

  record_newaccount-Keeps : (a : NewAccount) → Keeps P (record_newaccount d c a)
  unfolding record_newaccount
  record_newaccount-Keeps a =
      Keeps-bind _ _ (issued (account_upsert a.name) (account_named a.name)) (λ _.
        Keeps-bind _ _
          (Keeps-for_each a.owner_keys _ (λ key.
            Keeps-bind _ _ (issued (key_insert a.name key "owner") (key_given a.name key "owner"))
              (λ _. Keeps-pure tt)))
          (λ _. Keeps-for_each a.active_keys _ (λ key.
            Keeps-bind _ _ (issued (key_insert a.name key "active") (key_given a.name key "active"))
              (λ _. Keeps-pure tt))))

  ruleset attempts =
      (keeps_rules, attempt-Keeps, vote_cast, proposed, proposal_ended, asset_created, row_inserted)

  record_action-Keeps : (action : Action) (v : c.Variant) → Keeps P (record_action d c action v)
  unfolding record_action record_vote record_proposal erase_proposal record_asset
  record_action-Keeps action v = search (attempts, record_newaccount-Keeps) depth 12

  parse_with-Keeps : (action : Action) (abi : Option c.Abi) → Keeps P (parse_with d c action abi)
  unfolding parse_with
  parse_with-Keeps action none = Keeps-pure tt
  parse_with-Keeps action (some abi) = search (keeps_rules, record_action-Keeps) depth 9

  pub parse_actions-Keeps : (action : Action) → Keeps P (parse_actions d c action)
  unfolding parse_actions
  parse_actions-Keeps action = search (keeps_rules, select_abi-Keeps, parse_with-Keeps)

  pub record_row-Keeps :
      (action : Action) (id : String) (time : ℕ) → Keeps P (record_row d c action id time)
  unfolding record_row
  record_row-Keeps action id time = search (attempts, add_data-Keeps, parse_actions-Keeps) depth 12

  -- Whatever the driver does, a property that it keeps under the statements of `Issued` is kept by
  -- `add`, also when it throws: it gives the driver no other statement.
  pub add-Issued :
      (action : Action) (id : String) (time : ℕ) (filter_out : List String)
      → Keeps P (add d c action id time filter_out)
  unfolding add
  add-Issued action id time filter_out = search (keeps_rules, record_row-Keeps)
