-- ===== src/Api/Found.antt =====
-- The token queries against a description of what they find.
use mathlib.Core.List.{append_assoc, append-nil}
use eos_sql_db_plugin.Base.{
  ℕ, String, ◌≡◌, ap, ◌∙◌, Bool, true, false, Option, none, some, List, [], ◌∷◌, ◌++◌, ltb, str_eq,
  arith, if◌then◌else◌,
}
use eos_sql_db_plugin.Effect.{
  Result, ok, throws, Effect, pure, try_catch, ◌>>=◌, for_each, continued,
}
use eos_sql_db_plugin.Chain.{Asset}
use eos_sql_db_plugin.Api.Chainbase.{
  Chainbase, get_abi, get_table_type, walk_rows, walk_table, walk_key_value_table,
}
use eos_sql_db_plugin.Api.Tokens.{
  Token, TokenParams, asset_amount_to_string, cursor_of, on_row, push_zero, walk_accounts, logged,
  get_token, get_tokens,
}

abbrev pub option_list : {A : Type 0} → Option A → List A
option_list none = []
option_list (some a) = a ∷ []

-- What `g` finds for the members of a list, in order.
abbrev pub collect : {A B : Type 0} → (A → Option B) → List A → List B
collect g [] = []
collect g (x ∷ xs) = option_list (g x) ++ collect g xs

module _ (db : Chainbase) where
  abbrev token_of : (contract symbol : String) → (precision : ℕ) → Asset → Token
  token_of contract symbol precision cursor = record {
    contract = contract;
    quantity = asset_amount_to_string db cursor;
    symbol = symbol;
    precision = precision;
  }

  -- The first row with an asset of the symbol, if it and every row before it hold a valid asset.
  unfoldable pub first_held : (contract symbol : String) → List (List ℕ) → Option Token
  first_held contract symbol [] = none
  first_held contract symbol (row ∷ rows) =
      let later = first_held contract symbol rows in
      elim (cursor_of db row) [
        | throws e ↦ none
        | ok cursor ↦
            if str_eq cursor.symbol_name symbol
            then some (token_of contract symbol cursor.decimals cursor)
            else later
      ]

  abbrev pub zero_of : (contract symbol : String) → ℕ → Result Asset → Option Token
  zero_of contract symbol shown (ok cursor) = some (token_of contract symbol shown cursor)
  zero_of contract symbol shown (throws e) = none

  abbrev pub held_or : (contract symbol : String) → Option Token → Option ℕ → Option Token
  held_or contract symbol absent none = absent
  held_or contract symbol absent (some t_id) = first_held contract symbol (db.rows_of t_id)

  abbrev pub if_token_contract : {A : Type 0} → Result db.AbiDef → Option A → Option A
  if_token_contract (throws e) o = none
  if_token_contract (ok abi) o = elim (get_table_type (db.tables_of abi) "accounts") [
    | throws e ↦ none
    | ok index_type ↦ o
  ]

  -- The token that a request finds: none where the contract is no account, or its ABI has no table
  -- `accounts`; `absent` where the account has no table there; else the first row of the symbol.
  unfoldable pub found_token : (account contract symbol : String) → Option Token → Option Token
  found_token account contract symbol absent =
      if_token_contract (get_abi db contract)
        (held_or contract symbol absent (db.find_table contract account "accounts"))

  unfoldable pub requested_token : (account : String) → TokenParams → Option Token
  requested_token account t = found_token account t.contract t.symbol (
      if ltb 18 t.precision
      then none
      else zero_of t.contract t.symbol t.precision (db.zero_asset t.precision t.symbol))

  -- Under the try of the loop `m` adds what `o` holds, and the loop goes on.
  pub record Adds (m : Effect (List Token) (Unit {0})) (o : Option Token) : Type 0 where
    pub adds : (tokens : List Token) → logged db m tokens ≡ (ok tt, tokens ++ option_list o)

  pub pure-Adds : Adds (pure tt) none
  unfolding pure try_catch
  pure-Adds = record { adds = λ tokens. ground (arith, append-nil tokens) }

  rows-Adds :
      (contract symbol : String) (rows : List (List ℕ))
      → Adds (walk_rows rows (on_row db contract symbol)) (first_held contract symbol rows)
  unfolding walk_rows on_row first_held try_catch ◌>>=◌
  rows-Adds contract symbol [] = record { adds = λ tokens. ground (arith, append-nil tokens) }
  rows-Adds contract symbol (row ∷ rows) = record {
    adds =
        λ tokens. ground (arith, append-nil tokens, (rows-Adds contract symbol rows).adds tokens);
  }

  pub push_zero-Adds :
      (contract symbol : String) (precision shown : ℕ)
      → Adds
          (push_zero db contract symbol precision shown)
          (zero_of contract symbol shown (db.zero_asset precision symbol))
  unfolding push_zero try_catch ◌>>=◌
  push_zero-Adds contract symbol precision shown = record {
    adds = λ tokens. ground (arith, append-nil tokens);
  }

  table-Adds :
      (contract symbol : String) (f2 : Effect (List Token) (Unit {0})) (absent : Option Token)
      (t : Option ℕ)
      → Adds f2 absent
      → Adds (walk_table db t (on_row db contract symbol) f2) (held_or contract symbol absent t)
  unfolding walk_table
  table-Adds contract symbol f2 absent none a = a
  table-Adds contract symbol f2 absent (some t_id) a = rows-Adds contract symbol (db.rows_of t_id)

  pub walk_accounts-Adds :
      (account contract symbol : String) (f2 : Effect (List Token) (Unit {0}))
      (absent : Option Token)
      → Adds f2 absent
      → Adds
          (walk_accounts db account contract symbol f2)
          (found_token account contract symbol absent)
  unfolding walk_accounts found_token walk_key_value_table try_catch ◌>>=◌
  walk_accounts-Adds account contract symbol f2 absent a = record {
    adds = λ tokens. ground (
      arith,
      append-nil tokens,
      (table-Adds contract symbol f2 absent (db.find_table contract account "accounts") a).adds
          tokens,
    );
  }

  choose-Adds :
      (b : Bool) (m : Effect (List Token) (Unit {0})) (o : Option Token)
      → Adds m o
      → Adds (if b then pure tt else m) (if b then none else o)
  choose-Adds true m o a = pure-Adds
  choose-Adds false m o a = a

  get_token-Adds :
      (account : String) (t : TokenParams)
      → Adds (get_token db account t) (requested_token account t)
  unfolding get_token requested_token
  get_token-Adds account t = walk_accounts-Adds account t.contract t.symbol _ _ (
      choose-Adds (ltb 18 t.precision) _ _
        (push_zero-Adds t.contract t.symbol t.precision t.precision))

  pub loop-Adds :
      {A : Type 0} (body : A → Effect (List Token) (Unit {0})) (g : A → Option Token) (xs : List A)
      (tokens : List Token)
      → ((x : A) → Adds (body x) (g x))
      → for_each xs (λ x. logged db (body x)) tokens ≡ (ok tt, tokens ++ collect g xs)
  unfolding for_each ◌>>=◌
  loop-Adds body g [] tokens a = ground (arith, append-nil tokens)
  loop-Adds body g (x ∷ xs) tokens a =
      ap
        (λ (r : Result (Unit {0}) × List Token).
          continued r (λ _. for_each xs (λ y. logged db (body y))))
        ((a x).adds tokens)
      ∙ loop-Adds body g xs (tokens ++ option_list (g x)) a
      ∙ ap (λ (l : List Token). (ok tt, l)) (append_assoc tokens (option_list (g x)) (collect g xs))

  -- get_tokens answers, for each request in order, the token that the request finds, if any: a
  -- request that fails leaves the others as they are.
  pub get_tokens-eq-collect :
      (account : String) (ts : List TokenParams)
      → get_tokens db account ts ≡ collect (requested_token account) ts
  unfolding get_tokens
  get_tokens-eq-collect account ts =
      ap (λ (r : Result (Unit {0}) × List Token). r.1)
        (loop-Adds (get_token db account) (requested_token account) ts [] (get_token-Adds account))
