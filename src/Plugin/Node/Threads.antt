-- ===== src/Plugin/Node/Threads.antt =====
-- The invariant of a running node, and that the steps of the threads of sql_db_plugin/consumer.hpp
-- keep it.
use mathlib.Core.List.{append-nil}
use eos_sql_db_plugin.Base.{
  ℕ, ◌≡◌, refl, sym, ap, ◌∙◌, subst, Bool, true, false, not, Option, none, some, some-injective,
  List, [], ◌++◌, arith,
}
use eos_sql_db_plugin.Sql.{Driver}
use eos_sql_db_plugin.Chain.{TransactionTrace, BlockState, ChainLib}
use eos_sql_db_plugin.Database.{SqlDatabase, consume_block_state, consume_transaction_trace}
use eos_sql_db_plugin.Consumer.Channel.{Channel, Signal, deliver, Producer, idle, Move, move}
use eos_sql_db_plugin.Consumer.Flow.{
  in_flight, consumes, is_call, move-Flows, taken_in, deliver_kept, deliver_consumed,
}
use eos_sql_db_plugin.Consumer.System.{
  Consumer, Event, on_blocks, on_traces, close, initial, step, after_blocks, after_traces, Reach,
  next,
}
use eos_sql_db_plugin.Consumer.Safety.{Reach-IsSafe}
use eos_sql_db_plugin.Consumer.Batch.{after_all, after_all-append}
use eos_sql_db_plugin.Plugin.Node.{Node, with_consumer, after_event, is_internal, thread_step}
use eos_sql_db_plugin.Consumer.Steps.{
  empty_right, consumed_empty, Reach-on_blocks, Reach-on_traces, Unmoved, close-Unmoved,
}
use eos_sql_db_plugin.Plugin.Node.Accepted.{accepted}

module _ (d : Driver) (c : ChainLib) (self : SqlDatabase) (queue_size start : ℕ) (db : d.Db) where
  abbrev pub stored : List TransactionTrace → d.Db
  stored tcs = after_all (consume_transaction_trace d c self) db tcs

  -- What holds in every state of a run.
  pub record Holds (n : Node d.Db) : Type 0 where
    pub reached : Reach queue_size initial n.consumer
    -- Nothing is pushed to the queue of the blocks.
    pub quiet : taken_in n.consumer.blocks ≡ []
    pub brought : taken_in n.consumer.traces ≡ accepted start n.signals
    pub written : n.db ≡ stored n.consumer.traces.consumed

  blocks_moved-Holds :
      (picks : Bool) (m : Move BlockState) (n o : Node d.Db)
      → is_call m ≡ false
      → Holds n
      → (r : Option (Channel BlockState × Signal))
      → move n.consumer.exit queue_size m n.consumer.blocks ≡ r
      → with_consumer n
          (after_event d c self queue_size (on_blocks picks m) n.consumer n.db)
          (after_blocks n.consumer picks r)
        ≡ some o
      → Holds o
  unfolding after_all
  blocks_moved-Holds picks m n o k v none p h = cc
  blocks_moved-Holds picks m n o k v (some (ch, sig)) p h =
      let s = n.consumer in
      let f = move-Flows s.exit queue_size m s.blocks ch sig k p in
      let reached = Reach-on_blocks queue_size s picks m ch sig v.reached p in
      let quiet = deliver_kept sig picks ch ∙ f.kept ∙ v.quiet in
      let none_handed = empty_right s.blocks.consumed (consumes m s.blocks) (
        sym f.handed
        ∙ sym (deliver_consumed sig picks ch)
        ∙ consumed_empty (deliver sig picks ch) (Reach-IsSafe queue_size reached).blocks quiet) in
      subst Holds (some-injective _ _ h) (record {
        reached = reached;
        quiet = quiet;
        brought = deliver_kept sig (not picks) s.traces ∙ v.brought;
        written =
            ap (after_all (consume_block_state d c self) n.db) none_handed
            ∙ v.written
            ∙ ap stored (sym (deliver_consumed sig (not picks) s.traces));
      })

  traces_moved-Holds :
      (picks : Bool) (m : Move TransactionTrace) (n o : Node d.Db)
      → is_call m ≡ false
      → Holds n
      → (r : Option (Channel TransactionTrace × Signal))
      → move n.consumer.exit queue_size m n.consumer.traces ≡ r
      → with_consumer n
          (after_event d c self queue_size (on_traces picks m) n.consumer n.db)
          (after_traces n.consumer picks r)
        ≡ some o
      → Holds o
  traces_moved-Holds picks m n o k v none p h = cc
  traces_moved-Holds picks m n o k v (some (ch, sig)) p h =
      let s = n.consumer in
      let f = move-Flows s.exit queue_size m s.traces ch sig k p in
      subst Holds (some-injective _ _ h) (record {
        reached = Reach-on_traces queue_size s picks m ch sig v.reached p;
        quiet = deliver_kept sig picks s.blocks ∙ v.quiet;
        brought = deliver_kept sig (not picks) ch ∙ f.kept ∙ v.brought;
        written =
            ap (λ x. after_all (consume_transaction_trace d c self) x (consumes m s.traces))
              v.written
            ∙ sym (
                after_all-append (consume_transaction_trace d c self) s.traces.consumed
                  (consumes m s.traces) db)
            ∙ ap stored (sym (deliver_consumed sig (not picks) ch ∙ f.handed));
      })

  -- A step that moves no entry.
  Unmoved-Holds :
      (n : Node d.Db) (t : Consumer BlockState TransactionTrace)
      → Holds n
      → Reach queue_size initial t
      → Unmoved n.consumer t
      → Holds (record n { consumer = t })
  Unmoved-Holds n t v r u = record {
    reached = r;
    quiet = u.blocks ∙ v.quiet;
    brought = u.traces ∙ v.brought;
    written = v.written ∙ ap stored (sym u.consumed);
  }

  closed-Holds :
      (n o : Node d.Db)
      → Holds n
      → (r : Option (Consumer BlockState TransactionTrace)) → step queue_size close n.consumer ≡ r
      → with_consumer n n.db r ≡ some o
      → Holds o
  closed-Holds n o v none p h = cc
  closed-Holds n o v (some t) p h =
      subst Holds (some-injective _ _ h)
        (Unmoved-Holds n t v (next close v.reached p) (close-Unmoved queue_size n.consumer t p))

  pub thread_step-Holds :
      (e : Event BlockState TransactionTrace) (n o : Node d.Db)
      → is_internal e ≡ true
      → Holds n
      → thread_step d c self queue_size e n ≡ some o
      → Holds o
  unfolding thread_step step
  thread_step-Holds (on_blocks picks m) n o k v h =
      blocks_moved-Holds picks m n o (ground arith) v _ refl h
  thread_step-Holds (on_traces picks m) n o k v h =
      traces_moved-Holds picks m n o (ground arith) v _ refl h
  thread_step-Holds close n o k v h = closed-Holds n o v _ refl h

  -- With no call under way all that is accepted has been pushed.
  pub pushed_all :
      (n : Node d.Db)
      → Holds n
      → n.consumer.traces.producer ≡ idle
      → n.consumer.traces.pushed ≡ accepted start n.signals
  pushed_all n v p =
      let pushed = n.consumer.traces.pushed in
      sym (append-nil pushed)
      ∙ ap (λ (x : Producer TransactionTrace). pushed ++ in_flight x) (sym p)
      ∙ v.brought
