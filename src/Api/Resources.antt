-- ===== src/Api/Resources.antt =====
-- get_userresource and get_refund of read_only (sql_db_plugin/sql_db_plugin.cpp). The state of the walk
-- is the result that its callback fills. How a row is read is the node's, so it is a parameter,
-- `RowReader`.
use eos_sql_db_plugin.Base.{
  ℕ, String, Bool, true, false, Option, none, some, List, ltb, length, if◌then◌else◌,
}
use eos_sql_db_plugin.Base.Int.{ℤ, pos}
use eos_sql_db_plugin.Effect.{
  Result, ok, throws, fc_exception, std_exception, Effect, pure, lift, ◌>>=◌, ◌>>◌,
}
use eos_sql_db_plugin.Chain.{Asset}
use eos_sql_db_plugin.Api.Chainbase.{Chainbase, walk_key_value_table}

pub record RowReader (db : Chainbase) : Type 1 where
  pub Serializer : Type 0
  pub Variant : Type 0
  -- abi_serializer(abi, abi_serializer_max_time)
  pub serializer_of : db.AbiDef → Result Serializer
  -- abis.binary_to_variant(type, ds, abi_serializer_max_time)
  pub binary_to_variant : Serializer → String → List ℕ → Result Variant
  -- v[field].as<asset>(), v[field].as<int64_t>(), v[field].as<string>()
  pub asset_of_field : Variant → String → Result Asset
  pub int64_of_field : Variant → String → Result ℤ
  pub text_of_field : Variant → String → Result String
  -- asset(), sizeof(get_userresource_result)
  pub default_asset : Asset
  pub sizeof_userresource : ℕ

pub record UserResource : Type 0 where
  pub net_weight : Asset
  pub cpu_weight : Asset
  pub ram_bytes : ℤ

pub record Refund : Type 0 where
  pub request_time : String
  pub net_amount : Asset
  pub cpu_amount : Asset

-- An assignment to the result.
abbrev pub assign : {S : Type 0} → (S → S) → Effect S (Unit {0})
assign change s = (ok tt, change s)

-- What a call has put into the result, or what it throws.
abbrev pub result_of : {A S : Type 0} → Result A × S → Result S
result_of (ok a, result) = ok result
result_of (throws e, result) = throws e

module _ (db : Chainbase) (rd : RowReader db) where
  open rd use {
    Serializer, serializer_of, binary_to_variant, asset_of_field, int64_of_field, text_of_field,
    default_asset, sizeof_userresource,
  }

  -- `EOS_ASSERT( obj.value.size() >= sizeof(get_userresource_result), ... )`, in both calls.
  abbrev pub assert_size : {S : Type 0} → List ℕ → Effect S (Unit {0})
  assert_size value =
      if ltb (length value) sizeof_userresource then lift (throws fc_exception) else pure tt

  unfoldable pub on_userresource : Serializer → List ℕ → Effect UserResource Bool
  on_userresource abis value = do
    assert_size value
    userr ← lift (binary_to_variant abis "user_resources" value)
    net_weight ← lift (asset_of_field userr "net_weight")
    assign (λ result. record result { net_weight = net_weight })
    cpu_weight ← lift (asset_of_field userr "cpu_weight")
    assign (λ result. record result { cpu_weight = cpu_weight })
    ram_bytes ← lift (int64_of_field userr "ram_bytes")
    assign (λ result. record result { ram_bytes = ram_bytes })
    pure true

  unfoldable pub on_refund : Serializer → List ℕ → Effect Refund Bool
  on_refund abis value = do
    assert_size value
    ref ← lift (binary_to_variant abis "refund_request" value)
    request_time ← lift (text_of_field ref "request_time")
    assign (λ result. record result { request_time = request_time })
    net_amount ← lift (asset_of_field ref "net_amount")
    assign (λ result. record result { net_amount = net_amount })
    cpu_amount ← lift (asset_of_field ref "cpu_amount")
    assign (λ result. record result { cpu_amount = cpu_amount })
    pure true

  -- db.db().get<account_object, by_name>(N(eosio)), which throws std::out_of_range where there is none.
  abbrev pub code_account : Option (List ℕ) → Result (List ℕ)
  code_account none = throws std_exception
  code_account (some abi) = ok abi

  -- `if(abi_serializer::to_abi(...))`, with the walk below it.
  unfoldable pub read_table :
      {S : Type 0}
      → (account table : String) → (Serializer → List ℕ → Effect S Bool)
      → db.AbiDef
      → (done : Bool) → Effect S (Unit {0})
  read_table account table f abi false = pure tt
  read_table account table f abi true = do
    abis ← lift (serializer_of abi)
    walk_key_value_table db "eosio" account table (f abis) (pure tt)

  unfoldable pub read_system_table :
      {S : Type 0}
      → (account table : String) → (Serializer → List ℕ → Effect S Bool)
      → Effect S (Unit {0})
  read_system_table account table f = do
    bytes ← lift (code_account (db.find_account "eosio"))
    abi ← lift (db.to_abi bytes)
    read_table account table f abi.0 abi.1

  abbrev pub no_userresource : UserResource
  no_userresource = record {
    net_weight = default_asset;
    cpu_weight = default_asset;
    ram_bytes = pos 0;
  }

  abbrev pub no_refund : Refund
  no_refund = record { request_time = ""; net_amount = default_asset; cpu_amount = default_asset }

  unfoldable pub get_userresource : (account : String) → Result UserResource
  get_userresource account =
      result_of (read_system_table account "userres" on_userresource no_userresource)

  unfoldable pub get_refund : (account : String) → Result Refund
  get_refund account = result_of (read_system_table account "refunds" on_refund no_refund)
