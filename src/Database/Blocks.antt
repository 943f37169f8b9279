-- ===== src/Database/Blocks.antt =====
-- sql_database::consume_block_state against the list of the actions that it adds, and the member
-- m_contract_filter_out.
use eos_sql_db_plugin.Base.{
  ℕ, String, ◌≡◌, refl, sym, ap, ◌∙◌, inl, inr, Bool-cases, Option, none, some, List, [], ◌∷◌, ◌++◌,
  map, if◌then◌else◌,
}
use eos_sql_db_plugin.Effect.{
  Result, ok, throws, Effect, ◌>>◌, for_each, for_each-append, lift-bind,
}
use eos_sql_db_plugin.Sql.{Driver}
use eos_sql_db_plugin.Chain.{Action, Receipt, Transaction, TransactionTrace, BlockState, ChainLib}
use eos_sql_db_plugin.Session.{with_session}
use eos_sql_db_plugin.Database.{
  SqlDatabase, is_onblock, consume_action, consume_transaction, consume_packed, consume_block_state,
  consume_transaction_trace,
}
use eos_sql_db_plugin.Database.Traversal.{record_each, dfs_inline_traces-eq-record_each}

module _ (c : ChainLib) where
  abbrev pub transaction_actions : Result Transaction → List (String × Action)
  transaction_actions (throws e) = []
  transaction_actions (ok trx) =
      if is_onblock trx.actions then [] else map (λ action. (trx.id, action)) trx.actions

  -- The actions of a receipt, each with the id of its transaction: none of a receipt that holds no
  -- packed transaction, none of an onblock transaction.
  unfoldable pub packed_actions : Option (List ℕ) → List (String × Action)
  packed_actions none = []
  packed_actions (some raw) = transaction_actions (c.unpack_transaction raw)

  unfoldable pub block_actions : List Receipt → List (String × Action)
  block_actions [] = []
  block_actions (receipt ∷ receipts) = packed_actions receipt.packed ++ block_actions receipts

  -- Every packed transaction of the block unpacks.
  abbrev pub Unpacks : Option (List ℕ) → Type 0
  Unpacks none = Unit {0}
  Unpacks (some raw) = (trx : Transaction) × (c.unpack_transaction raw ≡ ok trx)

  abbrev pub AllUnpack : List Receipt → Type 0
  AllUnpack [] = Unit {0}
  AllUnpack (receipt ∷ receipts) = Unpacks receipt.packed × AllUnpack receipts

module _ (d : Driver) (c : ChainLib) (self : SqlDatabase) where
  unfoldable pub consume_each : (block_time : ℕ) → List (String × Action) → Effect d.Db (Unit {0})
  consume_each block_time actions =
      for_each actions (λ p. consume_action d c self p.0 block_time p.1)

  consume_each-map :
      (time : ℕ) (id : String) (actions : List Action)
      → consume_each time (map (λ action. (id, action)) actions)
        ≡ for_each actions (consume_action d c self id time)
  unfolding consume_each for_each
  consume_each-map time id [] = refl
  consume_each-map time id (action ∷ actions) =
      ap (λ m. consume_action d c self id time action >> m) (consume_each-map time id actions)

  consume_transaction_lem :
      (bs : BlockState) (trx : Transaction)
      → consume_transaction d c self bs trx
        ≡ consume_each bs.timestamp (transaction_actions c (ok trx))
  unfolding consume_transaction
  consume_transaction_lem bs trx = elim (Bool-cases (is_onblock trx.actions)) [
    | inl on ↦ rw on (unfold consume_each for_each in refl)
    | inr off ↦ rw off (sym (consume_each-map bs.timestamp trx.id trx.actions))
  ]

  consume_packed_lem :
      (bs : BlockState) (packed : Option (List ℕ))
      → Unpacks c packed
      → consume_packed d c self bs packed ≡ consume_each bs.timestamp (packed_actions c packed)
  unfolding consume_packed packed_actions
  consume_packed_lem bs none u = unfold consume_each for_each in refl
  consume_packed_lem bs (some raw) (trx, e) =
      rw e (lift-bind trx (consume_transaction d c self bs) ∙ consume_transaction_lem bs trx)

  consume_receipts :
      (bs : BlockState) (receipts : List Receipt)
      → AllUnpack c receipts
      → for_each receipts (λ receipt. consume_packed d c self bs receipt.packed)
        ≡ consume_each bs.timestamp (block_actions c receipts)
  unfolding for_each block_actions
  consume_receipts bs [] u = unfold consume_each for_each in refl
  consume_receipts bs (receipt ∷ receipts) u =
      rw (consume_packed_lem bs receipt.packed u.0, consume_receipts bs receipts u.1)
        (unfold consume_each in
          sym (for_each-append (packed_actions c receipt.packed) (block_actions c receipts) _))

  -- A block whose packed transactions all unpack has every action of its transactions, but for
  -- onblock ones, given to `add` in order, each under a session of its own.
  pub consume_block_state-eq-consume_each :
      (bs : BlockState)
      → AllUnpack c bs.transactions
      → consume_block_state d c self bs
        ≡ consume_each bs.timestamp (block_actions c bs.transactions)
  unfolding consume_block_state
  consume_block_state-eq-consume_each bs u = consume_receipts bs bs.transactions u

  -- What consuming a transaction trace does is independent of m_contract_filter_out: the option
  -- sql_db-contract-filter-out filters nothing.
  pub contract_filter_out_ignored :
      (tc : TransactionTrace) (filter_out : List String)
      → consume_transaction_trace d c (record self { m_contract_filter_out = filter_out }) tc
        ≡ consume_transaction_trace d c self tc
  unfolding consume_transaction_trace record_each
  contract_filter_out_ignored tc filter_out = ap (with_session d) (
      dfs_inline_traces-eq-record_each d c (record self { m_contract_filter_out = filter_out })
        tc.action_traces tc.id tc.block_time
      ∙ sym (dfs_inline_traces-eq-record_each d c self tc.action_traces tc.id tc.block_time))
