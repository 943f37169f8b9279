-- ===== src/Plugin/Node/Order.antt =====
-- What the database of a running node holds, by the signals that the node has sent.
use mathlib.Core.List.{append_assoc}
use eos_sql_db_plugin.Base.{ℕ, ◌≡◌, refl, sym, ap, ◌∙◌, ◌≢◌, false, ◌++◌}
use eos_sql_db_plugin.Sql.{Driver}
use eos_sql_db_plugin.Chain.{ChainLib}
use eos_sql_db_plugin.Database.{SqlDatabase, consume_transaction_trace}
use eos_sql_db_plugin.Consumer.Channel.{asleep, ended, idle}
use eos_sql_db_plugin.Consumer.Flow.{in_flight}
use eos_sql_db_plugin.Consumer.System.{here}
use eos_sql_db_plugin.Consumer.Safety.{Reach-IsSafe}
use eos_sql_db_plugin.Consumer.Batch.{after_all}
use eos_sql_db_plugin.Plugin.Node.{Node, started, Run, begin, thread, signalled}
use eos_sql_db_plugin.Plugin.Pipeline.{resting-consumed}
use mathlib.Core.Bool.{false≢true}
use eos_sql_db_plugin.Consumer.Ending.{is_ended, Reach-ended}
use eos_sql_db_plugin.Plugin.Node.Working.{ByWorker, Run-ByWorker}
use eos_sql_db_plugin.Plugin.Node.Settling.{worker-Settles}
use eos_sql_db_plugin.Plugin.Node.Accepted.{accepted}
use eos_sql_db_plugin.Plugin.Node.Threads.{Holds, stored, pushed_all, thread_step-Holds}
use eos_sql_db_plugin.Plugin.Node.Signals.{signal_at-Holds}

module _ (d : Driver) (c : ChainLib) (self : SqlDatabase) (queue_size start : ℕ) (db : d.Db) where
  start-Holds : Holds d c self queue_size start db (started db)
  unfolding after_all
  start-Holds = record { reached = here; quiet = refl; brought = refl; written = refl }

  Run-Holds :
      {n : Node d.Db}
      → Run d c self queue_size start (started db) n
      → Holds d c self queue_size start db n
  Run-Holds begin = start-Holds
  Run-Holds (thread {m} {o} e k r h) =
      thread_step-Holds d c self queue_size start db e m o k (Run-Holds r) h
  Run-Holds (signalled {m} {o} tc r h) =
      signal_at-Holds d c self queue_size start db tc m o m.consumer.traces.producer refl
        (Run-Holds r) h

  -- Whatever order the signals and the steps of the threads come in, the database is at any time what
  -- consuming a first part of the accepted transactions leaves, one after another in the order of
  -- their signals; the rest of them is, in this order, in the batch, in the queue and in the call of
  -- `queue` under way.
  pub Run-consumed :
      (n : Node d.Db)
      → Run d c self queue_size start (started db) n
      → (let ch = n.consumer.traces in
          (n.db ≡ after_all (consume_transaction_trace d c self) db ch.consumed)
          × (accepted start n.signals
              ≡ ch.consumed ++ ((ch.process_queue ++ ch.queue) ++ in_flight ch.producer)))
  Run-consumed n r =
      let v = Run-Holds r in
      let ch = n.consumer.traces in
      (
        v.written,
        sym v.brought
            ∙ ap (λ l. l ++ in_flight ch.producer) (Reach-IsSafe queue_size v.reached).traces.flow
            ∙ append_assoc ch.consumed (ch.process_queue ++ ch.queue) (in_flight ch.producer),
      )

  -- Whenever the worker of the traces sleeps and no call of `queue` is under way, the database is what
  -- consuming all the accepted transactions leaves, one after another in the order of their signals.
  pub Run-at_rest :
      (n : Node d.Db)
      → Run d c self queue_size start (started db) n
      → n.consumer.traces.worker ≡ asleep
      → n.consumer.traces.producer ≡ idle
      → n.db ≡ after_all (consume_transaction_trace d c self) db (accepted start n.signals)
  Run-at_rest n r w p =
      let v = Run-Holds r in
      let all : n.consumer.traces.consumed ≡ accepted start n.signals =
        resting-consumed n.consumer.traces (Reach-IsSafe queue_size v.reached).traces w p
        ∙ pushed_all d c self queue_size start db n v p in
      v.written ∙ ap (stored d c self queue_size start db) all

  -- As long as `exit` is not set: from every state of a run where no call of `queue` is under way, the
  -- worker of the traces can bring the node, by its own steps and with no further signal, to a state
  -- whose database is what consuming all the accepted transactions leaves, one after another in the
  -- order of their signals.
  pub Run-settles :
      (n : Node d.Db)
      → Run d c self queue_size start (started db) n
      → n.consumer.exit ≡ false
      → n.consumer.traces.producer ≡ idle
      → (last : Node d.Db) × (ByWorker d c self queue_size n last)
        × (last.signals ≡ n.signals)
        × (last.db ≡ after_all (consume_transaction_trace d c self) db (accepted start n.signals))
  Run-settles n r e i =
      let v = Run-Holds r in
      let going : n.consumer.traces.worker ≢ ended =
        λ w. false≢true (sym e ∙ Reach-ended queue_size v.reached (ap is_ended w)) in
      let s = worker-Settles d c self queue_size n.consumer.traces.worker n going refl i e in
      (
        s.last,
        s.run,
        s.signals,
        Run-at_rest s.last (Run-ByWorker d c self queue_size start r s.run) s.worker s.producer
            ∙ ap (λ l. after_all (consume_transaction_trace d c self) db (accepted start l))
                s.signals,
      )
