-- ===== src/Plugin/Node/Accepted.antt =====
-- Which transactions the handler of sql_db_plugin/sql_db_plugin.cpp passes on.
use eos_sql_db_plugin.Base.{
  ℕ, ◌≡◌, refl, ◌⊎◌, inl, inr, Bool-cases, ◌||◌, List, [], ◌∷◌, ◌++◌, ltb, arith, if◌then◌else◌,
}
use eos_sql_db_plugin.Chain.{TransactionTrace}
use eos_sql_db_plugin.Consumer.Channel.{call}
use eos_sql_db_plugin.Plugin.{is_onblock, on_applied_transaction}

-- The transactions to record: those of a block that is not before the first one to record, without
-- the block's own onblock transaction.
abbrev pub accepted : (block_num_start : ℕ) → List TransactionTrace → List TransactionTrace
accepted start [] = []
accepted start (tc ∷ tcs) =
    let rest = accepted start tcs in
    if ltb tc.block_num start || is_onblock tc.action_traces then rest else tc ∷ rest

pub accepted-append :
    (start : ℕ) (xs ys : List TransactionTrace)
    → accepted start (xs ++ ys) ≡ accepted start xs ++ accepted start ys
accepted-append start [] ys = refl
accepted-append start (x ∷ xs) ys = ground (arith, accepted-append start xs ys)

pub on_applied_transaction-cases :
    (start : ℕ) (tc : TransactionTrace)
    → ((on_applied_transaction start tc ≡ []) × (accepted start (tc ∷ []) ≡ []))
      ⊎ ((on_applied_transaction start tc ≡ call tc ∷ []) × (accepted start (tc ∷ []) ≡ tc ∷ []))
unfolding on_applied_transaction
on_applied_transaction-cases start tc = elim (Bool-cases (ltb tc.block_num start)) [
  | inl early ↦ inl (rw early, rw early)
  | inr late ↦ elim (Bool-cases (is_onblock tc.action_traces)) [
    | inl own ↦ inl (rw (late, own), rw (late, own))
    | inr other ↦ inr (rw (late, other), rw (late, other))
  ]
]
