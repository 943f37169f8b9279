-- ===== src/Actions/Rows.antt =====
-- The rows that parse_actions writes, by the account and the name of the action.
use eos_sql_db_plugin.Base.{
  String, ◌≡◌, refl, ◌⊎◌, Bool, false, ◌||◌, Option, none, some, List, [], ◌∷◌, ◌++◌, map, str_eq,
  arith, eq_iff,
}
use eos_sql_db_plugin.Base.Int.{is_positive}
use eos_sql_db_plugin.Effect.{
  ok, pure, ◌>>=◌, ◌>>◌, for_each, for_each-append, bind_assoc, pure-bind,
}
use eos_sql_db_plugin.Effect.Keeps.{Keeps, Keeps-pure, keeps_rules}
use eos_sql_db_plugin.Sql.{Driver, Statement}
use eos_sql_db_plugin.Chain.{Action, Asset, NewAccount, ChainLib}
use eos_sql_db_plugin.Actions.Statements.{abi_select, account_upsert, key_insert}
use eos_sql_db_plugin.Actions.AddData.{select_abi}
use eos_sql_db_plugin.Actions.Parse.{
  record_newaccount, record_asset, record_action, parse_with, parse_actions,
}

-- The statements of a new account: its row, then one key after another.
abbrev pub newaccount_statements : NewAccount → List Statement
newaccount_statements a =
    account_upsert a.name
    ∷ (map (λ key. key_insert a.name key "owner") a.owner_keys
        ++ map (λ key. key_insert a.name key "active") a.active_keys)

module _ (d : Driver) (c : ChainLib) where
  for_each-map :
      {A : Type 0} (f : A → Statement) (xs : List A)
      → for_each (map f xs) (λ st. d.execute st >> pure tt)
        ≡ for_each xs (λ x. d.execute (f x) >> pure tt)
  unfolding for_each
  for_each-map f [] = refl
  for_each-map f (x ∷ xs) = rw (for_each-map f xs)

  -- A newaccount action executes the statement of the account and those of its owner keys and its
  -- active keys, in this order, and stops with the first that throws.
  pub record_newaccount-eq-for_each :
      (a : NewAccount)
      → record_newaccount d c a ≡ for_each (newaccount_statements a) (λ st. d.execute st >> pure tt)
  unfolding record_newaccount for_each
  record_newaccount-eq-for_each a = simp (for_each-append, for_each-map, bind_assoc, pure-bind)

  -- The names of the accounts and actions that parse_actions looks at.
  abbrev is_parsed : Action → Bool
  is_parsed action =
      str_eq action.account c.system_account_name
      || str_eq action.account "eosio.msig"
      || str_eq action.name "create"

  module _ (P : d.Db → Type 0)
      (reads : (account : String) → Keeps P (d.execute (abi_select account))) where
    select_abi-reads : (account : String) → Keeps P (select_abi d c account)
    unfolding select_abi
    select_abi-reads account = search (keeps_rules, reads)

    record_action-reads :
        (action : Action) (v : c.Variant)
        → is_parsed action ≡ false
        → Keeps P (record_action d c action v)
    unfolding record_action
    record_action-reads action v h =
        let nothing : record_action d c action v ≡ pure tt = ground arith in
        rw nothing (Keeps-pure tt)

    parse_with-reads :
        (action : Action) (abi : Option c.Abi)
        → is_parsed action ≡ false
        → Keeps P (parse_with d c action abi)
    unfolding parse_with
    parse_with-reads action none h = Keeps-pure tt
    parse_with-reads action (some abi) h = search (keeps_rules, record_action-reads action) depth 9

    -- For an account that is neither the system account nor eosio.msig, and a name other than
    -- `create`, parse_actions makes no call of the driver but the SELECT of an ABI.
    pub parse_actions_reads :
        (action : Action) → is_parsed action ≡ false → Keeps P (parse_actions d c action)
    unfolding parse_actions
    parse_actions_reads action h = search (keeps_rules, select_abi-reads, parse_with-reads)

  -- Where the fields of a token can be read, and its issuer is empty or its maximum supply is not
  -- positive, the call returns and nothing is executed: the token is not stored.
  pub record_asset_rejected :
      (action : Action) (v : c.Variant) (issuer : String) (maximum_supply : Asset) (s : d.Db)
      → c.name_of_field v "issuer" ≡ ok issuer
      → c.asset_of_field v "maximum_supply" ≡ ok maximum_supply
      → (issuer ≡ "") ⊎ (is_positive maximum_supply.amount ≡ false)
      → record_asset d c action v s ≡ (ok tt, s)
  unfolding record_asset ◌>>=◌
  record_asset_rejected action v issuer maximum_supply s i m h = ground (arith, eq_iff issuer "")
