-- ===== src/Plugin/Node/Records.antt =====
-- What a running node records, by the actions in the traces that it signals, and its sessions.
use eos_sql_db_plugin.Base.{ℕ, ◌≡◌, refl, ap, ◌∙◌, List, [], ◌∷◌, fun_ext}
use eos_sql_db_plugin.Effect.{Effect}
use eos_sql_db_plugin.Sql.{Driver}
use eos_sql_db_plugin.Chain.{TransactionTrace, ChainLib}
use eos_sql_db_plugin.Session.{with_session}
use eos_sql_db_plugin.Session.Leases.{LeaseLaws}
use eos_sql_db_plugin.Database.{SqlDatabase, consume_transaction_trace}
use eos_sql_db_plugin.Database.Traversal.{selected, record_each, dfs_inline_traces-eq-record_each}
use eos_sql_db_plugin.Database.Balance.{consume_transaction_trace-Keeps_leases}
use eos_sql_db_plugin.Consumer.Channel.{asleep, idle}
use eos_sql_db_plugin.Consumer.Batch.{after_all}
use eos_sql_db_plugin.Plugin.Node.{Node, started, Run}
use eos_sql_db_plugin.Plugin.Node.Accepted.{accepted}
use eos_sql_db_plugin.Plugin.Node.Order.{Run-consumed, Run-at_rest}

module _ (d : Driver) (c : ChainLib) (self : SqlDatabase) where
  -- Under a session of its own, the rows of the selected actions of a trace, in order.
  abbrev pub recorded : TransactionTrace → Effect d.Db (Unit {0})
  recorded tc =
      with_session d (
        record_each d c self tc.id tc.block_time
          (selected self.m_action_filter_on tc.action_traces))

  consume_transaction_trace-eq-recorded :
      (tc : TransactionTrace) → consume_transaction_trace d c self tc ≡ recorded tc
  unfolding consume_transaction_trace
  consume_transaction_trace-eq-recorded tc =
      ap (with_session d)
        (dfs_inline_traces-eq-record_each d c self tc.action_traces tc.id tc.block_time)

  module _ (queue_size start : ℕ) (db : d.Db) (n : Node d.Db)
      (r : Run d c self queue_size start (started db) n) where
    -- In every run of the node, whenever the worker of the traces sleeps and no call of `queue` is
    -- under way: the database is what comes of recording, for one accepted transaction after another
    -- in the order of the signals and each under a session of its own, the selected actions of its
    -- traces in their order. What one transaction throws ends it alone.
    pub Run-recorded :
        n.consumer.traces.worker ≡ asleep
        → n.consumer.traces.producer ≡ idle
        → n.db ≡ after_all recorded db (accepted start n.signals)
    Run-recorded w p =
        Run-at_rest d c self queue_size start db n r w p
        ∙ ap (λ m. after_all m db (accepted start n.signals))
            (fun_ext consume_transaction_trace-eq-recorded)

    module _ (laws : LeaseLaws d) where
      open laws use {leased}

      after_all-leased :
          (tcs : List TransactionTrace) (s : d.Db)
          → leased (after_all (consume_transaction_trace d c self) s tcs) ≡ leased s
      unfolding after_all
      after_all-leased [] s = refl
      after_all-leased (tc ∷ tcs) s =
          after_all-leased tcs (consume_transaction_trace d c self tc s).1
          ∙ (consume_transaction_trace-Keeps_leases d c laws self tc (leased s)).after s refl

      -- In every run of the node, with a pool that counts its leases as soci documents: between the
      -- steps of the threads as many sessions are leased as at the start, whatever was thrown.
      pub Run-leased : leased n.db ≡ leased db
      Run-leased =
          ap leased (Run-consumed d c self queue_size start db n r).0
          ∙ after_all-leased n.consumer.traces.consumed db
