-- ===== src/Database/Balance.antt =====
-- sql_database: the sessions that its operations take and give back.
use eos_sql_db_plugin.Base.{ℕ, String, ◌≡◌, Option, none, some, List}
use eos_sql_db_plugin.Effect.Keeps.{Keeps, Keeps-pure, Keeps-bind, Keeps-for_each, keeps_rules}
use eos_sql_db_plugin.Sql.{Driver}
use eos_sql_db_plugin.Chain.{Action, ActionTraces, TransactionTrace, BlockState, ChainLib}
use eos_sql_db_plugin.Session.Leases.{LeaseLaws, with_session-Keeps}
use eos_sql_db_plugin.Actions.Add.{add}
use eos_sql_db_plugin.Actions.Bound.{add-Keeps}
use eos_sql_db_plugin.Actions.Issued.{record_row-Keeps}
use eos_sql_db_plugin.Database.{
  SqlDatabase, consume_action, consume_transaction, consume_packed, consume_block_state,
  dfs_inline_traces, consume_transaction_trace,
}
use eos_sql_db_plugin.Database.Traversal.{selected, record_each, dfs_inline_traces-eq-record_each}

module _ (d : Driver) (c : ChainLib) (laws : LeaseLaws d) (self : SqlDatabase) where
  open laws use {leased, execute_keeps}

  add-Leases :
      (n : ℕ) (action : Action) (id : String) (time : ℕ) (filter_out : List String)
      → Keeps (λ s. leased s ≡ n) (add d c action id time filter_out)
  add-Leases n = add-Keeps d c (λ s. leased s ≡ n) (λ st _. execute_keeps n st)

  dfs-Leases :
      (n : ℕ) (traces : ActionTraces) (id : String) (time : ℕ)
      → Keeps (λ s. leased s ≡ n) (dfs_inline_traces d c self traces id time)
  unfolding record_each
  dfs-Leases n traces id time = rw dfs_inline_traces-eq-record_each (
      Keeps-for_each (selected self.m_action_filter_on traces) _ (λ act.
        Keeps-bind _ _
          (record_row-Keeps d c (λ s. leased s ≡ n) (λ st _. execute_keeps n st) act id time)
          (λ _. Keeps-pure tt)))

  -- With a pool that counts its leases as soci documents, consuming a transaction trace leaves as
  -- many sessions leased as there were, whether it returns or throws.
  pub consume_transaction_trace-Keeps_leases :
      (tc : TransactionTrace) (n : ℕ)
      → Keeps (λ s. leased s ≡ n) (consume_transaction_trace d c self tc)
  unfolding consume_transaction_trace
  consume_transaction_trace-Keeps_leases tc n =
      with_session-Keeps d laws _ (λ k. dfs-Leases k tc.action_traces tc.id tc.block_time) n

  consume_action-Leases :
      (n : ℕ) (id : String) (time : ℕ) (action : Action)
      → Keeps (λ s. leased s ≡ n) (consume_action d c self id time action)
  unfolding consume_action
  consume_action-Leases n id time action =
      Keeps-bind _ _ (with_session-Keeps d laws _ (λ k. add-Leases k action id time _) n)
        (λ _. Keeps-pure tt)

  consume_packed-Leases :
      (n : ℕ) (bs : BlockState) (packed : Option (List ℕ))
      → Keeps (λ s. leased s ≡ n) (consume_packed d c self bs packed)
  unfolding consume_packed consume_transaction
  consume_packed-Leases n bs none = Keeps-pure tt
  consume_packed-Leases n bs (some raw) = search (keeps_rules, consume_action-Leases)

  -- With a pool that counts its leases as soci documents, consuming a block, where every action has
  -- a session of its own, leaves as many sessions leased as there were, whether it returns or
  -- throws.
  pub consume_block_state-Keeps_leases :
      (bs : BlockState) (n : ℕ) → Keeps (λ s. leased s ≡ n) (consume_block_state d c self bs)
  unfolding consume_block_state
  consume_block_state-Keeps_leases bs n =
      Keeps-for_each bs.transactions _ (λ receipt. consume_packed-Leases n bs receipt.packed)
