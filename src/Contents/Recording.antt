-- ===== src/Contents/Recording.antt =====
-- actions_table::add (sql_db_plugin/db/actions_table.cpp) on the reference server makes of the
-- contents of the tables what Contents/Actions says.
use eos_sql_db_plugin.Base.{String, ◌≡◌, refl, List, [], ◌∷◌, arith, inl, inr, is_empty, Bool-cases}
use eos_sql_db_plugin.Effect.{
  fc_exception, mysql_soci_error, std_exception, unknown, Result, ok, throws, pure, lift, try_catch,
  ◌>>=◌, handled,
}
use eos_sql_db_plugin.Sql.{Driver}
use eos_sql_db_plugin.Chain.{Action, SetAbi, ChainLib}
use eos_sql_db_plugin.Actions.Statements.{abi_upsert}
use eos_sql_db_plugin.Actions.AddData.{
  unpack_handler, is_setabi, select_abi, store_abi, decode_data, setabi_data, add_data,
}
use eos_sql_db_plugin.Contents.{Contents, Write, write_abi, Server, abi_text}
use eos_sql_db_plugin.Contents.Reference.{reference, command_of, lookup}
use eos_sql_db_plugin.Contents.Writes.{attempt_lem}
use eos_sql_db_plugin.Contents.Actions.{until_refused, decoded, data_of, set_data, setabi_of}

module _ (sv : Server) (c : ChainLib) where
  abbrev ref : Driver
  ref = reference sv

  pub select_abi_lem :
      (account : String) (s : Contents) → select_abi ref c account s ≡ (ok (abi_text account s), s)
  unfolding select_abi command_of lookup ◌>>=◌
  select_abi_lem account s = refl

  decode_data_lem :
      (action : Action) (s : Contents)
      → decode_data ref c action s ≡ (ok (decoded c action (abi_text action.account s)), s)
  unfolding decode_data ◌>>=◌
  decode_data_lem action s = rw select_abi_lem (ground arith)

  store_abi_lem :
      (sa : SetAbi) (json : String) (s : Contents)
      → store_abi ref c sa json s
        ≡ (ok json, until_refused sv (write_abi sa.account json json ∷ []) s)
  unfolding store_abi ◌>>=◌ command_of lookup
  store_abi_lem sa json s =
      rw (attempt_lem sv (abi_upsert sa.account json) (write_abi sa.account json json) s refl) refl

  -- What a JSON text with its writes leaves.
  abbrev pub Leaves : String × List Write → Contents → Result String × Contents
  Leaves (json, writes) s = (ok json, until_refused sv writes s)

  set_data_lem :
      (action : Action) (sa : SetAbi) (r : Result c.Abi) (s : Contents)
      → handled
          (try_catch
            (lift r >>= λ abi. store_abi ref c sa (c.json_of_abi abi))
            (unpack_handler ref c action)
            s)
          (λ _. pure "{}")
        ≡ Leaves (set_data c action (abi_text action.account s) sa.account r) s
  unfolding ◌>>=◌
  set_data_lem action sa (ok abi) s = rw (store_abi_lem sa (c.json_of_abi abi) s) refl
  set_data_lem action sa (throws fc_exception) s = rw (decode_data_lem action s) refl
  set_data_lem action sa (throws mysql_soci_error) s = refl
  set_data_lem action sa (throws std_exception) s = refl
  set_data_lem action sa (throws unknown) s = refl

  setabi_lem :
      (action : Action) (r : Result SetAbi) (s : Contents)
      → handled
          ((lift r >>= λ sa.
              try_catch
                (lift (c.unpack_abi sa.abi) >>= λ abi. store_abi ref c sa (c.json_of_abi abi))
                (unpack_handler ref c action))
            s)
          (λ _. pure "{}")
        ≡ Leaves (setabi_of c action (abi_text action.account s) r) s
  unfolding ◌>>=◌
  setabi_lem action (ok sa) s = unfold ◌>>=◌ in set_data_lem action sa (c.unpack_abi sa.abi) s
  setabi_lem action (throws e) s = refl

  pub add_data_lem :
      (action : Action) (s : Contents)
      → add_data ref c action s ≡ Leaves (data_of c action (abi_text action.account s)) s
  unfolding add_data setabi_data try_catch
  add_data_lem action s = elim (Bool-cases (is_empty action.bytes)) [
    | inl empty ↦ rw empty (unfold pure in refl)
    | inr full ↦ elim (Bool-cases (is_setabi ref c action)) [
      | inl set ↦ rw (full, set) (setabi_lem action (c.as_setabi action.bytes) s)
      | inr other ↦ rw (full, other, decode_data_lem action s) refl
    ]
  ]
