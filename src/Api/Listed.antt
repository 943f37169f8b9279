-- ===== src/Api/Listed.antt =====
-- get_all_tokens and get_hold_tokens against what each row of the table assets finds.
use eos_sql_db_plugin.Base.{String, ◌≡◌, refl, false, Option, none, List, []}
use eos_sql_db_plugin.Base.Int.{ℤ, is_negative}
use eos_sql_db_plugin.Effect.{Result, ok, throws, Effect, lift, ◌>>=◌}
use eos_sql_db_plugin.Sql.{Driver, Value, Reply, get_text, get_number}
use eos_sql_db_plugin.Session.{with_session}
use eos_sql_db_plugin.Actions.Statements.{assets_page, assets_all}
use eos_sql_db_plugin.Api.Chainbase.{Chainbase}
use eos_sql_db_plugin.Api.Tokens.{
  Token, to_uint8, get_asset_token, get_hold_token, get_all_tokens, get_hold_tokens,
}
use eos_sql_db_plugin.Api.Found.{
  collect, zero_of, found_token, Adds, pure-Adds, push_zero-Adds, walk_accounts-Adds, loop-Adds,
}

-- What is found by a value that may throw.
abbrev pub by_result : {A : Type 0} → Result A → (A → Option Token) → Option Token
by_result (ok a) k = k a
by_result (throws e) k = none

module _ (db : Chainbase) where
  -- The token of a row of assets: its contract and symbol are columns 0 and 3, and column 2 is the
  -- precision that it is shown with where the account has no table of the contract.
  unfoldable pub listed_token : (account : String) → List Value → Option Token
  listed_token account row = by_result (get_text 0 row) (λ contract.
      by_result (get_text 3 row) (λ symbol. found_token db account contract symbol (
        by_result (get_number 2 row)
          (λ p. zero_of db contract symbol (to_uint8 p) (db.zero_asset (to_uint8 p) symbol)))))

  unfoldable pub held_token : (account : String) → List Value → Option Token
  held_token account row = by_result (get_text 0 row) (λ contract.
      by_result (get_text 3 row) (λ symbol. found_token db account contract symbol none))

  lift-Adds :
      {A : Type 0} (r : Result A) (k : A → Effect (List Token) (Unit {0})) (g : A → Option Token)
      → ((a : A) → Adds db (k a) (g a))
      → Adds db (lift r >>= k) (by_result r g)
  unfolding ◌>>=◌
  lift-Adds (ok a) k g h = record { adds = λ tokens. (h a).adds tokens }
  lift-Adds (throws e) k g h = record { adds = λ tokens. (pure-Adds db).adds tokens }

  get_asset_token-Adds :
      (account : String) (row : List Value)
      → Adds db (get_asset_token db account row) (listed_token account row)
  unfolding get_asset_token listed_token
  get_asset_token-Adds account row = lift-Adds (get_text 0 row) _ _ (λ contract.
      lift-Adds (get_text 3 row) _ _ (λ symbol. walk_accounts-Adds db account contract symbol _ _ (
        lift-Adds (get_number 2 row) _ _
          (λ p. push_zero-Adds db contract symbol (to_uint8 p) (to_uint8 p)))))

  get_hold_token-Adds :
      (account : String) (row : List Value)
      → Adds db (get_hold_token db account row) (held_token account row)
  unfolding get_hold_token held_token
  get_hold_token-Adds account row = lift-Adds (get_text 0 row) _ _ (λ contract.
      lift-Adds (get_text 3 row) _ _
        (λ symbol. walk_accounts-Adds db account contract symbol _ _ (pure-Adds db)))

  module _ (d : Driver) (account : String) (s s' : d.Db) (assets : Reply) where
    -- For a page that is not negative, and where the query on assets under a session returns,
    -- get_all_tokens answers, for each row of the page in order, the token that the row finds, if
    -- any.
    pub get_all_tokens-eq-collect :
        (start_num page_size : ℤ)
        → is_negative start_num ≡ false
        → is_negative page_size ≡ false
        → with_session d (d.execute (assets_page start_num page_size)) s ≡ (ok assets, s')
        → get_all_tokens db d account start_num page_size s
          ≡ (ok (collect (listed_token account) assets.rows), s')
    unfolding get_all_tokens ◌>>=◌
    get_all_tokens-eq-collect start_num page_size p q h =
        let l =
          loop-Adds db (get_asset_token db account) (listed_token account) assets.rows []
            (get_asset_token-Adds account) in
        rw (p, q, h, l) refl

    -- Where the query on assets under a session returns, get_hold_tokens answers, for each row of
    -- assets in order, the token that the account holds a row of, if any.
    pub get_hold_tokens-eq-collect :
        with_session d (d.execute assets_all) s ≡ (ok assets, s')
        → get_hold_tokens db d account s ≡ (ok (collect (held_token account) assets.rows), s')
    unfolding get_hold_tokens ◌>>=◌
    get_hold_tokens-eq-collect h =
        let l =
          loop-Adds db (get_hold_token db account) (held_token account) assets.rows []
            (get_hold_token-Adds account) in
        rw (h, l) refl
