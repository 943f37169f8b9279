-- ===== src/Actions/Answers.antt =====
-- What `add` and `add_data` of actions_table answer, errors included.
use eos_sql_db_plugin.Base.{
  ℕ, String, ◌≡◌, refl, Bool, true, false, inl, inr, Bool-cases, List, contains, is_empty,
}
use eos_sql_db_plugin.Effect.{
  Result, ok, throws, Effect, pure, lift, try_catch, ◌>>=◌, ◌>>◌, handled, continued,
}
use eos_sql_db_plugin.Sql.{Driver, Statement, attempt}
use eos_sql_db_plugin.Chain.{Action, SystemContractArg, ChainLib}
use eos_sql_db_plugin.Actions.Statements.{actions_insert}
use eos_sql_db_plugin.Actions.AddData.{add_data}
use eos_sql_db_plugin.Actions.Parse.{parse_actions}
use eos_sql_db_plugin.Actions.Add.{record_row, add}

-- Returns, with no exception.
abbrev pub Returns : {A S : Type 0} → Result A × S → Type 0
Returns {A} r = (a : A) × (r.0 ≡ ok a)

handled-Returns : {A S : Type 0} (r : Result A × S) (a : A) → Returns (handled r (λ _. pure a))
unfolding pure
handled-Returns (ok b, s) a = (b, refl)
handled-Returns (throws e, s) a = (a, refl)

module _ (d : Driver) (c : ChainLib) where
  attempt-Returns : (st : Statement) (s : d.Db) → (attempt d st s).0 ≡ ok tt
  unfolding attempt try_catch
  attempt-Returns st s = (handled-Returns ((d.execute st >> pure tt) s) tt).1

  -- `add_data` throws nothing: it always answers a text.
  pub add_data-Returns : (action : Action) (s : d.Db) → Returns (add_data d c action s)
  unfolding add_data try_catch
  add_data-Returns action s = elim (Bool-cases (is_empty action.bytes)) [
    | inl empty ↦ rw empty (unfold pure in ("{}", refl))
    | inr full ↦ rw full (handled-Returns _ "{}")
  ]

-- What `add` answers, by whether the name is on the list and by what the conversion of the JSON text
-- to a system_contract_arg gives.
abbrev pub answer_of : Bool → Result SystemContractArg → Result Bool
answer_of false arg = ok false
answer_of true (ok arg) = ok true
answer_of true (throws e) = throws e

continued-const :
    {A B S : Type 0} (r : Result A × S) (a : A) (f : A → Effect S B) (b : Result B)
    → r.0 ≡ ok a
    → ((s : S) → (f a s).0 ≡ b)
    → (continued r f).0 ≡ b
continued-const (ok x, s) a f b h k = rw h (k s)
continued-const (throws e, s) a f b h k = cc

module _ (d : Driver) (c : ChainLib) where
  caught-Returns :
      (action : Action) (s : d.Db)
      → (try_catch (parse_actions d c action) (λ _. pure tt) s).0 ≡ ok tt
  unfolding try_catch
  caught-Returns action s = (handled-Returns (parse_actions d c action s) tt).1

  -- The part of `record_row` below the JSON text.
  tail : Action → String → ℕ → String → Result SystemContractArg → Effect d.Db Bool
  tail action id time json arg = do
    data_json ← lift arg
    attempt d (
        actions_insert action (c.sec_since_epoch time) json
          (c.json_of_authorization action.authorization) id data_json)
    try_catch (parse_actions d c action) (λ _. pure tt)
    pure true

  tail_answer :
      (action : Action) (id : String) (time : ℕ) (json : String) (arg : Result SystemContractArg)
      (s : d.Db)
      → (tail action id time json arg s).0 ≡ answer_of true arg
  unfolding tail ◌>>=◌
  tail_answer action id time json (ok arg) s =
      continued-const _ tt _ (ok true) (attempt-Returns d c _ s)
        (λ t. continued-const _ tt _ (ok true) (caught-Returns action t) (λ u. refl))
  tail_answer action id time json (throws e) s = refl

  -- `add` answers false for a name that is not on the list; for one that is on it, it answers
  -- true if the action's JSON text converts to a system_contract_arg, whatever the insertions do, and
  -- else throws what the conversion throws.
  pub add_outcome :
      (action : Action) (id : String) (time : ℕ) (filter_out : List String) (s : d.Db)
      (json : String)
      → (add_data d c action s).0 ≡ ok json
      → (add d c action id time filter_out s).0
        ≡ answer_of (contains action.name filter_out) (c.arg_of_json json)
  unfolding add record_row
  add_outcome action id time filter_out s json h =
      elim (Bool-cases (contains action.name filter_out)) [
        | inr off ↦ rw off (unfold pure in refl)
        | inl on ↦ rw on (
            unfold ◌>>=◌ in
            continued-const (add_data d c action s) json _ _ h
              (unfold tail in tail_answer action id time json (c.arg_of_json json)))
      ]
