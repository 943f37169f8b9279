-- ===== src/Contents/AbiText.antt =====
-- Which writes leave the ABI that an account has in the table accounts as it is: those that
-- sql_db_plugin/db/actions_table.cpp makes, but for the upsert of the account's ABI.
use eos_sql_db_plugin.Base.{
  subst, String, ◌≡◌, refl, ◌∙◌, true, false, inl, inr, Bool-cases, Option, none, some, List, [],
  ◌∷◌, str_eq, eq_iff,
}
use eos_sql_db_plugin.Effect.{Exception}
use eos_sql_db_plugin.Sql.{Value, first_text}
use eos_sql_db_plugin.Contents.{
  Contents, Write, write_abi, add_account, add_key, write_vote, write_proposal, drop_proposal,
  write_asset, add_row, Server, abi_rows, abi_text, upserted_account, apply,
}
use eos_sql_db_plugin.Contents.Actions.{from_verdict, until_refused}

module _ (sv : Server) (account : String) where
  -- The text of the account's ABI stays as it is.
  abbrev pub Same : Contents → Contents → Type 0
  Same t s = abi_text account t ≡ abi_text account s

  -- A write that is for no ABI of the account; the one of a new account updates no other name.
  abbrev pub Leaves : Write → Type 0
  Leaves (write_abi other json update) = str_eq other account ≡ false
  Leaves (add_account name update) = update ≡ name
  Leaves (add_key other key permission) = Unit {0}
  Leaves (write_vote voter proxy producers update_proxy update_producers) = Unit {0}
  Leaves (write_proposal row update) = Unit {0}
  Leaves (drop_proposal proposer proposal_name) = Unit {0}
  Leaves (write_asset row) = Unit {0}
  Leaves (add_row before json behind) = Unit {0}

  abbrev pub AllLeave : List Write → Type 0
  AllLeave [] = Unit {0}
  AllLeave (w ∷ ws) = Leaves w × AllLeave ws

  -- The texts that the queries of an ABI give.
  abbrev text_in : (String → Option Value) → String
  text_in f = first_text (abi_rows (f account))

  -- A new row has no ABI, and an old one keeps its own.
  own-text :
      (name : String) (o : Option Value) (f : String → Option Value)
      → str_eq name account ≡ true
      → f account ≡ o
      → text_in (upserted_account name name o f) ≡ text_in f
  own-text name none f e h = rw (e, h) refl
  own-text name (some v) f e h = rw (e, h) refl

  other-text :
      (name : String) (o : Option Value) (f : String → Option Value)
      → str_eq name account ≡ false
      → text_in (upserted_account name name o f) ≡ text_in f
  other-text name none f e = rw e refl
  other-text name (some v) f e = rw e refl

  upserted_account-text :
      (name : String) (o : Option Value) (f : String → Option Value)
      → f name ≡ o
      → text_in (upserted_account name name o f) ≡ text_in f
  upserted_account-text name o f h = elim (Bool-cases (str_eq name account)) [
    | inl e ↦ own-text name o f e (subst (λ a. f a ≡ o) ((eq_iff name account).0 e) h)
    | inr e ↦ other-text name o f e
  ]

  apply-Same : (w : Write) (s : Contents) → Leaves w → Same (apply sv w s) s
  apply-Same (write_abi other json update) s k = rw k refl
  apply-Same (add_account name update) s k =
      rw k (upserted_account-text name (s.abi name) s.abi refl)
  apply-Same (add_key other key permission) s k = refl
  apply-Same (write_vote voter proxy producers update_proxy update_producers) s k = refl
  apply-Same (write_proposal row update) s k = refl
  apply-Same (drop_proposal proposer proposal_name) s k = refl
  apply-Same (write_asset row) s k = refl
  apply-Same (add_row before json behind) s k = refl

  verdict-Same :
      (o : Option Exception) (w : Write) (following : Contents → Contents) (s : Contents)
      → Leaves w
      → ((t : Contents) → Same (following t) t)
      → Same (from_verdict sv o w following s) s
  verdict-Same none w following s k f = f (apply sv w s) ∙ apply-Same w s k
  verdict-Same (some e) w following s k f = refl

  pub until_refused-Same :
      (ws : List Write) (s : Contents) → AllLeave ws → Same (until_refused sv ws s) s
  until_refused-Same [] s k = refl
  until_refused-Same (w ∷ ws) s (k, ks) =
      verdict-Same (sv.refused w s) w (until_refused sv ws) s k (λ t. until_refused-Same ws t ks)
