-- ===== src/Contents/Parsing.antt =====
-- actions_table::parse_actions (sql_db_plugin/db/actions_table.cpp) on the reference server.
use eos_sql_db_plugin.Base.{
  String, ◌≡◌, refl, ◌||◌, not, some, inl, inr, str_eq, Bool-cases, if◌then◌else◌,
}
use eos_sql_db_plugin.Base.Int.{is_positive}
use eos_sql_db_plugin.Effect.{
  Result, ok, throws, Effect, pure, lift, try_catch, ◌>>=◌, bind_result, lift-bind,
}
use eos_sql_db_plugin.Sql.{Driver, attempt}
use eos_sql_db_plugin.Chain.{Action, Asset, NewAccount, ChainLib}
use eos_sql_db_plugin.Actions.Statements.{
  vote_upsert, proposal_upsert, proposal_delete, asset_replace,
}
use eos_sql_db_plugin.Actions.AddData.{max_serialization_time}
use eos_sql_db_plugin.Actions.Parse.{
  record_newaccount, record_vote, record_proposal, erase_proposal, record_asset, record_action,
  abi_of, parse_with, parse_actions,
}
use eos_sql_db_plugin.Actions.Rows.{newaccount_statements, record_newaccount-eq-for_each}
use eos_sql_db_plugin.Contents.{Contents, write_vote, drop_proposal, Server, abi_text}
use eos_sql_db_plugin.Contents.Reference.{reference, command_of, lookup}
use eos_sql_db_plugin.Contents.Actions.{
  until_refused, newaccount_writes, vote_writes, propose_writes, end_writes, read_by, create_writes,
  action_writes, variant_writes, parsed,
}
use eos_sql_db_plugin.Contents.Writes.{
  Matches-map, Matches-append, Writes, Writes-at, execute_each-Writes, attempt-Writes,
  nothing-Writes, Writes-if,
}
use eos_sql_db_plugin.Contents.Recording.{select_abi_lem}

lift-lift :
    {S A B C : Type 0} (r : Result A) (k : A → Result B) (f : B → Effect S C)
    → (lift r >>= λ a. lift (k a) >>= f) ≡ (lift (bind_result r k) >>= f)
unfolding ◌>>=◌
lift-lift (ok a) k f = refl
lift-lift (throws e) k f = refl

module _ (sv : Server) (c : ChainLib) where
  abbrev ref : Driver
  ref = reference sv

  record_newaccount-Writes :
      (r : Result NewAccount)
      → Writes sv (newaccount_writes c r) (lift r >>= record_newaccount ref c)
  unfolding Writes ◌>>=◌ command_of lookup
  record_newaccount-Writes (ok a) s = rw (record_newaccount-eq-for_each ref c a) (
      execute_each-Writes sv (newaccount_statements a) (newaccount_writes c (ok a))
        (
          refl,
          Matches-append _ _ _ _ (Matches-map _ _ (λ key. refl) a.owner_keys)
              (Matches-map _ _ (λ key. refl) a.active_keys),
        )
        s)
  record_newaccount-Writes (throws e) s = refl

  record_vote-Writes :
      (voter proxy producers : Result String)
      → Writes sv (vote_writes c voter proxy producers) (
          lift voter >>= λ v.
          lift proxy >>= λ x. lift producers >>= λ p. attempt ref (vote_upsert v x p))
  unfolding Writes ◌>>=◌ command_of lookup
  record_vote-Writes (ok v) (ok x) (ok p) s = attempt-Writes sv _ (write_vote v x p x p) refl s
  record_vote-Writes (ok v) (ok x) (throws e) s = refl
  record_vote-Writes (ok v) (throws e) r s = refl
  record_vote-Writes (throws e) q r s = refl

  record_proposal-Writes :
      (proposer name requested : Result String)
      → Writes sv (propose_writes c proposer name requested) (
          lift proposer >>= λ p.
          lift name >>= λ n. lift requested >>= λ r. attempt ref (proposal_upsert p n r))
  unfolding Writes ◌>>=◌ command_of lookup
  record_proposal-Writes (ok p) (ok n) (ok r) s = attempt-Writes sv _ _ refl s
  record_proposal-Writes (ok p) (ok n) (throws e) s = refl
  record_proposal-Writes (ok p) (throws e) r s = refl
  record_proposal-Writes (throws e) n r s = refl

  erase_proposal-Writes :
      (proposer name : Result String)
      → Writes sv
          (end_writes c proposer name)
          (lift proposer >>= λ p. lift name >>= λ n. attempt ref (proposal_delete p n))
  unfolding Writes ◌>>=◌ command_of lookup
  erase_proposal-Writes (ok p) (ok n) s = attempt-Writes sv _ (drop_proposal p n) refl s
  erase_proposal-Writes (ok p) (throws e) s = refl
  erase_proposal-Writes (throws e) n s = refl

  replace-Writes :
      (owner issuer : String) (supply : Asset)
      → Writes sv (create_writes c owner (ok issuer) (ok supply)) (
          if str_eq issuer "" || not (is_positive supply.amount)
          then pure tt
          else attempt ref (asset_replace supply issuer owner))
  unfolding try_catch attempt
  replace-Writes owner issuer supply =
      Writes-if sv (str_eq issuer "" || not (is_positive supply.amount)) _ _ _ _ (nothing-Writes sv)
        (unfold Writes command_of lookup in
          attempt-Writes sv (asset_replace supply issuer owner) _ refl)

  record_asset-Writes :
      (action : Action) (issuer : Result String) (supply : Result Asset)
      → Writes sv (create_writes c action.account issuer supply) (
          lift issuer >>= λ i. lift supply >>= λ m.
          if str_eq i "" || not (is_positive m.amount)
          then pure tt
          else attempt ref (asset_replace m i action.account))
  unfolding ◌>>=◌
  record_asset-Writes action (ok i) (ok m) = replace-Writes action.account i m
  record_asset-Writes action (ok i) (throws e) = unfold Writes in λ s. refl
  record_asset-Writes action (throws e) m = unfold Writes in λ s. refl

  record_action-Writes :
      (action : Action) (v : c.Variant)
      → Writes sv (action_writes c action v) (record_action ref c action v)
  unfolding record_action record_vote record_proposal erase_proposal record_asset
  record_action-Writes action v =
      let called = str_eq action.name in
      let name = c.name_of_field v in
      Writes-if sv (str_eq action.account c.system_account_name) _ _ _ _
        (Writes-if sv (called "newaccount") _ _ _ _
          (record_newaccount-Writes (c.as_newaccount action.bytes))
          (Writes-if sv (called "voteproducer") _ _ _ _
            (record_vote-Writes (name "voter") (name "proxy") (c.json_of_field v "producers"))
            (nothing-Writes sv)))
        (Writes-if sv (str_eq action.account "eosio.msig") _ _ _ _
          (Writes-if sv (called "propose") _ _ _ _
            (record_proposal-Writes (name "proposer") (name "proposal_name")
              (c.json_of_field v "requested"))
            (Writes-if sv (called "cancel" || called "exec") _ _ _ _
              (erase_proposal-Writes (name "proposer") (name "proposal_name")) (nothing-Writes sv)))
          (Writes-if sv (called "create") _ _ _ _
            (record_asset-Writes action (name "issuer") (c.asset_of_field v "maximum_supply"))
            (nothing-Writes sv)))

  variant-Writes :
      (action : Action) (r : Result c.Variant)
      → Writes sv (variant_writes c action r) (lift r >>= record_action ref c action)
  unfolding ◌>>=◌
  variant-Writes action (ok v) = record_action-Writes action v
  variant-Writes action (throws e) = unfold Writes in λ s. refl

  parse_with-Writes :
      (action : Action) (abi : c.Abi)
      → Writes sv
          (variant_writes c action (read_by c action abi))
          (parse_with ref c action (some abi))
  unfolding parse_with
  parse_with-Writes action abi =
      rw
        (lift-lift (c.set_abi abi max_serialization_time)
          (λ abis.
            c.binary_to_variant abis (c.get_action_type abis action.name) action.bytes
              max_serialization_time)
          (record_action ref c action))
        (variant-Writes action (read_by c action abi))

  -- The ABI that the text gives.
  parse_json-Writes :
      (action : Action) (r : Result c.Abi)
      → Writes sv (variant_writes c action (bind_result r (read_by c action))) (
          lift (elim r [ ok abi ↦ ok (some abi) | throws e ↦ throws e ])
          >>= parse_with ref c action)
  unfolding ◌>>=◌
  parse_json-Writes action (ok abi) = parse_with-Writes action abi
  parse_json-Writes action (throws e) = unfold Writes in λ s. refl

  parse_text-Writes :
      (action : Action) (abi : String)
      → Writes sv (parsed c action abi) (lift (abi_of ref c action abi) >>= parse_with ref c action)
  unfolding abi_of
  parse_text-Writes action abi = elim (Bool-cases (not (str_eq abi ""))) [
    | inl given ↦ rw given (parse_json-Writes action (c.abi_of_json abi))
    | inr none_given ↦ elim (Bool-cases (str_eq action.account c.system_account_name)) [
      | inl system ↦
          rw (none_given, system, lift-bind) (parse_with-Writes action c.eosio_contract_abi)
      | inr other ↦ rw (none_given, other, lift-bind) (unfold parse_with in (nothing-Writes sv))
    ]
  ]

  pub parse_actions_lem :
      (action : Action) (s : Contents)
      → try_catch (parse_actions ref c action) (λ _. pure tt) s
        ≡ (ok tt, until_refused sv (parsed c action (abi_text action.account s)) s)
  unfolding parse_actions try_catch ◌>>=◌
  parse_actions_lem action s =
      rw (select_abi_lem sv c action.account s)
        (Writes-at sv _ _ (parse_text-Writes action (abi_text action.account s)) s)
