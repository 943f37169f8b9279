-- ===== src/Api/Latest.antt =====
-- get_userresource and get_refund against a reading of each row by itself.
use eos_sql_db_plugin.Base.{
  ℕ, String, ◌≡◌, refl, ap, ◌∙◌, fun_ext, Bool, true, false, Option, none, some, List, [], ◌∷◌,
  arith, ltb, length, if◌then◌else◌,
}
use eos_sql_db_plugin.Effect.{
  bind_result, Result, ok, throws, fc_exception, Effect, pure, lift, ◌>>=◌, continued,
}
use eos_sql_db_plugin.Api.Chainbase.{Chainbase, walk_rows, walk_table, walk_key_value_table}
use eos_sql_db_plugin.Api.Resources.{
  RowReader, UserResource, Refund, result_of, on_userresource, on_refund, code_account, read_table,
  read_system_table, no_userresource, no_refund, get_userresource, get_refund,
}

-- The last of the rows, each read by `read`, or what the first that does not read throws; `r` where
-- there is no row.
abbrev pub latest : {S : Type 0} → (List ℕ → Result S) → S → List (List ℕ) → Result S
latest read r [] = ok r
latest read r (row ∷ rows) = bind_result (read row) (λ q. latest read q rows)

lift_result :
    {A B S : Type 0} (r : Result A) (k : A → Effect S B) (s : S)
    → result_of (continued (lift r s) k) ≡ bind_result r (λ a. result_of (k a s))
unfolding lift
lift_result (ok a) k s = refl
lift_result (throws e) k s = refl

module _ {S : Type 0} (f : List ℕ → Effect S Bool) (read : List ℕ → Result S) where
  -- One call of `f` overwrites the whole result by what `read` gives and asks for more rows.
  abbrev Overwrites : Type 0
  Overwrites =
      (row : List ℕ) (rest : Effect S (Unit {0})) (s : S)
      → result_of (continued (f row s) (λ more. if more then rest else pure tt))
        ≡ bind_result (read row) (λ q. result_of (rest q))

  walk_rows-latest :
      Overwrites
      → (rows : List (List ℕ)) (s : S) → result_of (walk_rows rows f s) ≡ latest read s rows
  unfolding walk_rows ◌>>=◌
  walk_rows-latest o [] s = refl
  walk_rows-latest o (row ∷ rows) s =
      o row (walk_rows rows f) s
      ∙ ap (bind_result (read row)) (fun_ext λ q. walk_rows-latest o rows q)

module _ (db : Chainbase) (rd : RowReader db) where
  abbrev sized : {A : Type 0} → List ℕ → Result A → Result A
  sized value r = if ltb (length value) rd.sizeof_userresource then throws fc_exception else r

  -- The result by one row alone.
  unfoldable pub userresource_of : rd.Serializer → List ℕ → Result UserResource
  userresource_of abis value = sized value (
      bind_result (rd.binary_to_variant abis "user_resources" value) (λ v.
        bind_result (rd.asset_of_field v "net_weight") (λ net.
          bind_result (rd.asset_of_field v "cpu_weight") (λ cpu.
            bind_result (rd.int64_of_field v "ram_bytes")
              (λ ram. ok (record { net_weight = net; cpu_weight = cpu; ram_bytes = ram }))))))

  unfoldable pub refund_of : rd.Serializer → List ℕ → Result Refund
  refund_of abis value = sized value (
      bind_result (rd.binary_to_variant abis "refund_request" value) (λ v.
        bind_result (rd.text_of_field v "request_time") (λ time.
          bind_result (rd.asset_of_field v "net_amount") (λ net.
            bind_result (rd.asset_of_field v "cpu_amount")
              (λ cpu. ok (record { request_time = time; net_amount = net; cpu_amount = cpu }))))))

  abbrev latest_in : {S : Type 0} → (List ℕ → Result S) → S → Option ℕ → Result S
  latest_in read r none = ok r
  latest_in read r (some t_id) = latest read r (db.rows_of t_id)

  abbrev latest_by :
      {S : Type 0}
      → (rd.Serializer → List ℕ → Result S)
      → S
      → Option ℕ
      → db.AbiDef
      → Bool
      → Result S
  latest_by read r t abi false = ok r
  latest_by read r t abi true =
      bind_result (rd.serializer_of abi) (λ abis. latest_in (read abis) r t)

  -- What a call answers: an error where the system account or its serializer fails, `r` where the
  -- account has no ABI or the table is not there, else the latest row.
  unfoldable pub latest_row :
      {S : Type 0} → (rd.Serializer → List ℕ → Result S) → S → (account table : String) → Result S
  latest_row read r account table =
      bind_result (code_account db rd (db.find_account "eosio")) (λ bytes.
        bind_result (db.to_abi bytes)
          (λ x. latest_by read r (db.find_table "eosio" account table) x.0 x.1))

  userresource-Overwrites :
      (abis : rd.Serializer) → Overwrites (on_userresource db rd abis) (userresource_of abis)
  unfolding on_userresource userresource_of ◌>>=◌
  userresource-Overwrites abis row rest s = ground arith

  refund-Overwrites : (abis : rd.Serializer) → Overwrites (on_refund db rd abis) (refund_of abis)
  unfolding on_refund refund_of ◌>>=◌
  refund-Overwrites abis row rest s = ground arith

  module _ {S : Type 0} (f : rd.Serializer → List ℕ → Effect S Bool)
      (read : rd.Serializer → List ℕ → Result S)
      (o : (abis : rd.Serializer) → Overwrites (f abis) (read abis)) where
    table-latest :
        (abis : rd.Serializer) (r : S) (t : Option ℕ)
        → result_of (walk_table db t (f abis) (pure tt) r) ≡ latest_in (read abis) r t
    unfolding walk_table
    table-latest abis r none = unfold pure in refl
    table-latest abis r (some t_id) =
        walk_rows-latest (f abis) (read abis) (o abis) (db.rows_of t_id) r

    abi-latest :
        (account table : String) (r : S) (abi : db.AbiDef) (done : Bool)
        → result_of (read_table db rd account table f abi done r)
          ≡ latest_by read r (db.find_table "eosio" account table) abi done
    unfolding read_table walk_key_value_table ◌>>=◌
    abi-latest account table r abi false = refl
    abi-latest account table r abi true =
        lift_result (rd.serializer_of abi) _ r
        ∙ ap (bind_result (rd.serializer_of abi))
            (fun_ext λ abis. table-latest abis r (db.find_table "eosio" account table))

    read_system_table-latest :
        (account table : String) (r : S)
        → result_of (read_system_table db rd account table f r) ≡ latest_row read r account table
    unfolding read_system_table latest_row ◌>>=◌
    read_system_table-latest account table r =
        lift_result (code_account db rd (db.find_account "eosio")) _ r
        ∙ ap (bind_result (code_account db rd (db.find_account "eosio"))) (
            fun_ext λ bytes.
              lift_result (db.to_abi bytes) _ r
              ∙ ap (bind_result (db.to_abi bytes))
                  (fun_ext λ x. abi-latest account table r x.0 x.1))

  -- get_userresource answers the last row of the account in the table userres of the system
  -- account, or throws what the first row that cannot be read throws; without a row, a table or an
  -- ABI it answers the result's defaults, and it throws where the system account is missing or its
  -- ABI makes no serializer.
  pub get_userresource-eq-latest_row :
      (account : String)
      → get_userresource db rd account
        ≡ latest_row (userresource_of) (no_userresource db rd) account "userres"
  unfolding get_userresource
  get_userresource-eq-latest_row account =
      read_system_table-latest (on_userresource db rd) userresource_of userresource-Overwrites
        account "userres" (no_userresource db rd)

  -- get_refund answers the last row of the account in the table refunds of the system account, or
  -- throws what the first row throws that cannot be read or is shorter than a
  -- get_userresource_result; without a row, a table or an ABI it answers the result's defaults, and
  -- it throws where the system account is missing or its ABI makes no serializer.
  pub get_refund-eq-latest_row :
      (account : String)
      → get_refund db rd account ≡ latest_row (refund_of) (no_refund db rd) account "refunds"
  unfolding get_refund
  get_refund-eq-latest_row account =
      read_system_table-latest (on_refund db rd) refund_of refund-Overwrites account "refunds"
        (no_refund db rd)
