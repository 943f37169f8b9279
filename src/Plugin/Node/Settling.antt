-- ===== src/Plugin/Node/Settling.antt =====
-- That the worker of the traces (run_traces of sql_db_plugin/consumer.hpp) can always bring a running
-- node to rest.
use eos_sql_db_plugin.Base.{
  ℕ, ◌≡◌, ◌≢◌, refl, ap, ◌∙◌, true, false, some, List, [], ◌∷◌, ◌++◌, arith,
}
use eos_sql_db_plugin.Sql.{Driver}
use eos_sql_db_plugin.Chain.{TransactionTrace, ChainLib}
use eos_sql_db_plugin.Database.{SqlDatabase}
use eos_sql_db_plugin.Consumer.Channel.{
  Channel, Signal, silent, notify_all, deliver, Worker, head, locking, testing, before_wait, asleep,
  woken, draining, drained, ended, idle, work, work_at, take_all, drain_one, move,
}
use eos_sql_db_plugin.Consumer.System.{on_traces, step, after_traces}
use eos_sql_db_plugin.Plugin.Node.{Node, with_consumer, after_event, thread_step}
use eos_sql_db_plugin.Plugin.Node.Working.{ByWorker, no_step, step_then}

module _ (d : Driver) (c : ChainLib) (self : SqlDatabase) (queue_size : ℕ) where
  -- A node at rest that the threads can bring `n` to.
  pub record Settles (n : Node d.Db) : Type 0 where
    pub last : Node d.Db
    pub run : ByWorker d c self queue_size n last
    pub signals : last.signals ≡ n.signals
    pub worker : last.consumer.traces.worker ≡ asleep
    pub producer : last.consumer.traces.producer ≡ idle

  -- The node after a step of the worker.
  abbrev after : Node d.Db → Channel TransactionTrace → Signal → Node d.Db
  after n ch sig = record n {
    consumer = record n.consumer {
      blocks = deliver sig true n.consumer.blocks;
      traces = deliver sig false ch;
    };
    db = after_event d c self queue_size (on_traces true work) n.consumer n.db;
  }

  thread_step-after :
      (n : Node d.Db) (ch : Channel TransactionTrace) (sig : Signal)
      → work_at n.consumer.exit n.consumer.traces n.consumer.traces.worker ≡ some (ch, sig)
      → thread_step d c self queue_size (on_traces true work) n ≡ some (after n ch sig)
  unfolding thread_step step move
  thread_step-after n ch sig h =
      ap
        (λ r.
          with_consumer n (after_event d c self queue_size (on_traces true work) n.consumer n.db)
            (after_traces n.consumer true r))
        h

  -- Where the worker stands, with the queue and the batch, while no call is under way.
  record At (n : Node d.Db) (w : Worker) (q l : List TransactionTrace) : Type 0 where
    pub worker : n.consumer.traces.worker ≡ w
    pub producer : n.consumer.traces.producer ≡ idle
    pub exit : n.consumer.exit ≡ false
    pub queue : n.consumer.traces.queue ≡ q
    pub process_queue : n.consumer.traces.process_queue ≡ l

  abbrev Settling : Worker → (q l : List TransactionTrace) → Type 0
  Settling w q l = (n : Node d.Db) → At n w q l → Settles n

  steps :
      (n : Node d.Db) (w : Worker) (ch : Channel TransactionTrace) (sig : Signal)
      → n.consumer.traces.worker ≡ w
      → n.consumer.exit ≡ false
      → work_at false n.consumer.traces w ≡ some (ch, sig)
      → Settles (after n ch sig)
      → Settles n
  steps n w ch sig p e h s =
      let first =
        ap (work_at n.consumer.exit n.consumer.traces) p
        ∙ ap (λ x. work_at x n.consumer.traces w) e
        ∙ h in
      record {
        last = s.last;
        run = step_then (thread_step-after n ch sig first) s.run;
        signals = s.signals;
        worker = s.worker;
        producer = s.producer;
      }

  -- A step that leaves the entries where they are.
  hop :
      (w w' : Worker) (q l : List TransactionTrace) (n : Node d.Db)
      → At n w q l
      → work_at false n.consumer.traces w ≡ some (record n.consumer.traces { worker = w' }, silent)
      → Settling w' q l
      → Settles n
  hop w w' q l n a h s =
      steps n w (record n.consumer.traces { worker = w' }) silent a.worker a.exit h
        (s _ (record {
          worker = refl;
          producer = a.producer;
          exit = a.exit;
          queue = a.queue;
          process_queue = a.process_queue;
        }))

  asleep-Settles : (q l : List TransactionTrace) → Settling asleep q l
  asleep-Settles q l n a = record {
    last = n;
    run = no_step;
    signals = refl;
    worker = a.worker;
    producer = a.producer;
  }

  before_wait-Settles : (q l : List TransactionTrace) → Settling before_wait q l
  unfolding work_at
  before_wait-Settles q l n a = hop before_wait asleep q l n a refl (asleep-Settles q l)

  -- From the test on, given what comes of a batch.
  testing-Settles :
      (q l : List TransactionTrace)
      → ((x : TransactionTrace) (r : List TransactionTrace) → q ≡ x ∷ r → Settling draining [] q)
      → Settling testing q l
  unfolding work_at take_all
  testing-Settles [] l s n a =
      hop testing before_wait [] l n a (ground (arith, a.queue)) (before_wait-Settles [] l)
  testing-Settles (x ∷ r) l s n a =
      let ch = n.consumer.traces in
      steps n testing (record ch { worker = draining; process_queue = ch.queue; queue = [] }) silent
        a.worker a.exit (ground (arith, a.queue))
        (s x r refl _ (record {
          worker = refl;
          producer = a.producer;
          exit = a.exit;
          queue = refl;
          process_queue = a.queue;
        }))

  module _ (q l : List TransactionTrace) (tested : Settling testing q l) where
    locking-Settles : Settling locking q l
    unfolding work_at
    locking-Settles n a = hop locking testing q l n a (ground (arith, a.producer)) tested

    woken-Settles : Settling woken q l
    unfolding work_at
    woken-Settles n a = hop woken testing q l n a (ground (arith, a.producer)) tested

    head-Settles : Settling head q l
    unfolding work_at
    head-Settles n a = hop head locking q l n a refl locking-Settles

    drained-Settles : Settling drained q l
    unfolding work_at
    drained-Settles n a =
        steps n drained (record n.consumer.traces { worker = head }) notify_all a.worker a.exit refl
          (head-Settles _ (record {
            worker = refl;
            producer = a.producer;
            exit = a.exit;
            queue = a.queue;
            process_queue = a.process_queue;
          }))

  draining-Settles : (q l : List TransactionTrace) → Settling testing q [] → Settling draining q l
  unfolding work_at drain_one
  draining-Settles q [] tested n a =
      hop draining drained q [] n a (ground (arith, a.process_queue)) (drained-Settles q [] tested)
  draining-Settles q (x ∷ l) tested n a =
      let ch = n.consumer.traces in
      steps n draining (record ch { process_queue = l; consumed = ch.consumed ++ x ∷ [] }) silent
        a.worker a.exit (ground (arith, a.process_queue))
        (draining-Settles q l tested _ (record {
          worker = a.worker;
          producer = a.producer;
          exit = a.exit;
          queue = a.queue;
          process_queue = refl;
        }))

  nothing_queued : (l : List TransactionTrace) → Settling testing [] l
  nothing_queued l = testing-Settles [] l (λ x r e. cc)

  any_queued : (q l : List TransactionTrace) → Settling testing q l
  any_queued q l = testing-Settles q l (λ x r e. draining-Settles [] q (nothing_queued []))

  at_any : (w : Worker) (q l : List TransactionTrace) → w ≢ ended → Settling w q l
  at_any head q l g = head-Settles q l (any_queued q l)
  at_any locking q l g = locking-Settles q l (any_queued q l)
  at_any testing q l g = any_queued q l
  at_any before_wait q l g = before_wait-Settles q l
  at_any asleep q l g = asleep-Settles q l
  at_any woken q l g = woken-Settles q l (any_queued q l)
  at_any draining q l g = draining-Settles q l (any_queued q [])
  at_any drained q l g = drained-Settles q l (any_queued q l)
  at_any ended q l g = absurd (g refl)

  pub worker-Settles :
      (w : Worker) (n : Node d.Db)
      → w ≢ ended
      → n.consumer.traces.worker ≡ w
      → n.consumer.traces.producer ≡ idle
      → n.consumer.exit ≡ false
      → Settles n
  worker-Settles w n going p i e =
      let q = n.consumer.traces.queue in
      let l = n.consumer.traces.process_queue in
      at_any w q l going n
        (record { worker = p; producer = i; exit = e; queue = refl; process_queue = refl })
