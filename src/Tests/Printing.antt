-- ===== src/Tests/Printing.antt =====
-- The theorem on asset_amount_to_string at a concrete asset.
use Prim.Native.String.{◌++◌ as append, count}
use eos_sql_db_plugin.Base.{
  ℕ, suc, arith, ◌+◌, ◌*◌, ◌^◌, String, ◌≡◌, refl, true, some, List, [], ◌==◌, if◌then◌else◌,
}
use eos_sql_db_plugin.Base.Int.{ℤ, pos, negsuc}
use eos_sql_db_plugin.Effect.{ok}
use eos_sql_db_plugin.Chain.{Asset}
use eos_sql_db_plugin.Api.Chainbase.{Chainbase}
use eos_sql_db_plugin.Api.Tokens.{asset_amount_to_string}
use eos_sql_db_plugin.Api.Decimal.{decimal, value, IsDigits}
use eos_sql_db_plugin.Api.Amount.{
  DecimalLaws, sign_of, asset_amount_to_string-spells, asset_amount_to_string_least,
}

-- -1.0050 SYS
abbrev debt : Asset
debt = record { amount = negsuc 10049; decimals = 4; symbol_name = "SYS" }

-- What fc::to_string writes of an int64_t.
abbrev signed : ℤ → String
signed (pos n) = decimal n
signed (negsuc n) = append "-" (decimal (suc n))

abbrev printing : Chainbase
printing = record {
  AbiDef = List ℕ;
  tables_of = λ abi. [];
  to_abi = λ bytes. ok (bytes, true);
  find_account = λ account. some [];
  find_table = λ code scope table. some 1;
  rows_of = λ t_id. [];
  sizeof_asset = 2;
  unpack_asset = λ bytes. ok debt;
  symbol_valid = λ a. true;
  zero_asset =
      λ precision name. ok (record { amount = pos 0; decimals = precision; symbol_name = name });
  precision_of = λ a. 10 ^ a.decimals;
  to_string = signed;
}

abbrev printing_laws : DecimalLaws printing
printing_laws = record {
  precision_is = λ a. refl;
  to_string_is = λ n. refl;
  to_string_negative = λ n. refl;
}

debt_text : asset_amount_to_string printing debt ≡ "-1.0050"
unfolding asset_amount_to_string decimal
debt_text = refl

-- The least int64_t has no absolute value in range, and the text is no number.
abbrev least : Asset
least = record { amount = negsuc 9223372036854775807; decimals = 4; symbol_name = "SYS" }

least_text : asset_amount_to_string printing least ≡ "--922337203685477.192"
unfolding asset_amount_to_string decimal
least_text = refl

asset_amount_to_string-spells_example :
    (whole : String) × (fract : String) × (asset_amount_to_string printing debt
      ≡ append (sign_of debt) (if 4 == 0 then whole else append whole (append "." fract)))
    × IsDigits whole
    × IsDigits fract
    × (count fract ≡ 4)
    × (value 0 whole * 10 ^ 4 + value 0 fract ≡ 10050)
asset_amount_to_string-spells_example =
    asset_amount_to_string-spells printing printing_laws debt (omega arith) (omega arith)

asset_amount_to_string_least_example :
    (rest : String) × (asset_amount_to_string printing least ≡ append "-" (append "-" rest))
asset_amount_to_string_least_example =
    asset_amount_to_string_least printing printing_laws 4 "SYS" (omega arith)
