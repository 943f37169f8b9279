-- ===== src/Plugin/Node/Tables.antt =====
-- What the tables hold that a running node writes: plugin_initialize of
-- sql_db_plugin/sql_db_plugin.cpp, the runs of the node after it, and the statements of
-- sql_db_plugin/db/actions_table.cpp on a server.
use eos_sql_db_plugin.Base.{ℕ, ◌≡◌, sym, subst, ap, ◌∙◌, Bool, some}
use eos_sql_db_plugin.Base.Int.{ℤ}
use eos_sql_db_plugin.Effect.{ok}
use eos_sql_db_plugin.Sql.{Driver, Pools, driver, of_db_blocks}
use eos_sql_db_plugin.Chain.{ChainLib}
use eos_sql_db_plugin.Database.{SqlDatabase}
use eos_sql_db_plugin.Consumer.Channel.{asleep, idle}
use eos_sql_db_plugin.Plugin.{Boost, VariablesMap, SqlDbPluginImpl, plugin_initialize}
use eos_sql_db_plugin.Plugin.Start.{configured}
use eos_sql_db_plugin.Plugin.Node.{Node, started, Run}
use eos_sql_db_plugin.Plugin.Node.Accepted.{accepted}
use eos_sql_db_plugin.Plugin.Node.Order.{Run-consumed, Run-at_rest}
use eos_sql_db_plugin.Plugin.Node.Configured.{members}
use eos_sql_db_plugin.Contents.{Server}
use eos_sql_db_plugin.Contents.Laws.{ServerLaws}
use eos_sql_db_plugin.Contents.Rows.{IsRecorded}
use eos_sql_db_plugin.Contents.Invariant.{after_traces-IsRecorded}
use eos_sql_db_plugin.Contents.Once.{Sublist, keys_of, with_traces, after_traces-keys}
use eos_sql_db_plugin.Contents.Exactly.{AllTracesAccepted, after_traces-exactly}
use eos_sql_db_plugin.Contents.Traces.{after_traces, after_traces_lem}

module _ (d : Driver) (c : ChainLib) (sv : Server) (laws : ServerLaws d sv) where
  open laws use {view}

  module _ (self : SqlDatabase) (queue_size start : ℕ) (db : d.Db) (n : Node d.Db)
      (r : Run d c self queue_size start (started db) n) where
    open self use {m_action_filter_on}

    -- At any time, of the transactions that have been consumed.
    Run-after_traces :
        view n.db ≡ after_traces c sv m_action_filter_on n.consumer.traces.consumed (view db)
    Run-after_traces =
        ap view (Run-consumed d c self queue_size start db n r).0
        ∙ after_traces_lem c sv d laws self n.consumer.traces.consumed db

    -- At any time in any run of the node, on a server that answers the statements as MySQL documents
    -- them and whose sessions can be leased and reconnected: if every token in the table assets has an issuer, a positive maximum supply and a supply
    -- of zero, and every row of the table actions has a name that the filter lists, at the start, then
    -- so it is then.
    pub Run-IsRecorded :
        IsRecorded m_action_filter_on (view db) → IsRecorded m_action_filter_on (view n.db)
    Run-IsRecorded h =
        subst (IsRecorded m_action_filter_on) (sym Run-after_traces)
          (after_traces-IsRecorded c sv m_action_filter_on n.consumer.traces.consumed (view db) h)

    Run-tables :
        n.consumer.traces.worker ≡ asleep
        → n.consumer.traces.producer ≡ idle
        → view n.db ≡ after_traces c sv m_action_filter_on (accepted start n.signals) (view db)
    Run-tables w p =
        ap view (Run-at_rest d c self queue_size start db n r w p)
        ∙ after_traces_lem c sv d laws self (accepted start n.signals) db

    -- In every run of the node, whenever the worker of the traces sleeps and no call of `queue` is
    -- under way, on a server that answers the statements as MySQL documents them and whose sessions
    -- can be leased and reconnected: by account, name and transaction and with the newest first, the
    -- rows of the table actions are what is left, when some are left out, of the list that has the
    -- selected actions of the accepted transactions in their order above the rows of the start. So no
    -- action is recorded twice or out of order, and none that is not selected.
    pub Run-at_most_once :
        n.consumer.traces.worker ≡ asleep
        → n.consumer.traces.producer ≡ idle
        → Sublist
            (keys_of (view n.db))
            (with_traces m_action_filter_on (accepted start n.signals) (keys_of (view db)))
    Run-at_most_once w p =
        let tcs = accepted start n.signals in
        subst (λ v. Sublist (keys_of v) (with_traces m_action_filter_on tcs (keys_of (view db))))
          (sym (Run-tables w p)) (after_traces-keys sv c m_action_filter_on tcs (view db))

    -- In every run of the node, whenever the worker of the traces sleeps and no call of `queue` is
    -- under way, on a server that answers the statements as MySQL documents them and whose sessions
    -- can be leased and reconnected, and where, with the tables as the actions before it leave them,
    -- the JSON text of each selected action of the accepted transactions is a system_contract_arg
    -- and the server does not refuse the action's row: the rows of the table actions are, newest
    -- first and by their account, name and transaction, those of the start below exactly one for
    -- every selected action of the accepted transactions, in their order.
    pub Run-exactly_once :
        AllTracesAccepted c sv m_action_filter_on (accepted start n.signals) (view db)
        → n.consumer.traces.worker ≡ asleep
        → n.consumer.traces.producer ≡ idle
        → keys_of (view n.db)
          ≡ with_traces m_action_filter_on (accepted start n.signals) (keys_of (view db))
    Run-exactly_once all_accepted w p =
        ap keys_of (Run-tables w p)
        ∙ after_traces-exactly c sv m_action_filter_on (accepted start n.signals) (view db)
            all_accepted

module _ (ps : Pools) (c : ChainLib) (boost : Boost) (options : VariablesMap) (sv : Server)
    (laws : ServerLaws (driver ps of_db_blocks) sv) where
  open laws use {view}
  open (configured ps c boost options) use {m_action_filter_on}

  -- After a plugin_initialize that returns with a consumer and a connection to the signal, on a
  -- server that answers the statements as MySQL documents them, refuses what it refuses by the write
  -- and the tables, and whose sessions can be leased and reconnected: in every run of the node from
  -- the database that it leaves, whenever the worker of the traces sleeps and no call of `queue` is
  -- under way, the tables hold what comes of the selected actions of the accepted transactions, one
  -- after another: each has its row with its data as JSON by the ABI that the table accounts then
  -- has, and, by the ABI that it has after that, its rows of the other tables; a write that is
  -- refused leaves the tables alone, and ends those of a new account; an action whose JSON text is no
  -- system_contract_arg ends those of its transaction.
  pub plugin_initialize-tables :
      (uninitialised : ℤ) (chain_plug : Bool) (s s' : ps.Db) (impl : SqlDbPluginImpl)
      (sql_db : SqlDatabase) (queue_size start : ℕ) (n : Node ps.Db)
      → plugin_initialize ps c boost options uninitialised chain_plug s ≡ (ok impl, s')
      → impl.handler ≡ some (sql_db, queue_size)
      → impl.applied_transaction_connection ≡ some start
      → Run (driver ps of_db_blocks) c sql_db queue_size start (started s') n
      → n.consumer.traces.worker ≡ asleep
      → n.consumer.traces.producer ≡ idle
      → view n.db
        ≡ after_traces c sv
            (configured ps c boost options).m_action_filter_on
            (accepted options.block_start n.signals)
            (view s')
  plugin_initialize-tables uninitialised chain_plug s s' impl sql_db queue_size start n e h k r w
        p =
      let (same, first) =
        members ps c boost options uninitialised chain_plug s s' impl sql_db queue_size start e h
          k in
      Run-tables (driver ps of_db_blocks) c sv laws sql_db queue_size start s' n r w p
      ∙ ap
          (λ (x : SqlDatabase).
            after_traces c sv x.m_action_filter_on (accepted start n.signals) (view s'))
          same
      ∙ ap
          (λ x.
            after_traces c sv (configured ps c boost options).m_action_filter_on
              (accepted x n.signals) (view s'))
          first
