-- ===== src/Tests/Resting.antt =====
-- A concrete schedule of the consumer: one trace is pushed, consumed, and the worker sleeps again.
use eos_sql_db_plugin.Base.{ℕ, zero, suc, ◌≡◌, refl, true, some, List, [], ◌∷◌}
use eos_sql_db_plugin.Chain.{TransactionTrace, BlockState}
use eos_sql_db_plugin.Consumer.Channel.{
  asleep, start, work, produce, call, work_at, produce_at, call_at, take_all, drain_one, move,
}
use eos_sql_db_plugin.Consumer.System.{Consumer, Event, on_traces, initial, step, run}
use eos_sql_db_plugin.Database.{SqlDatabase}
use eos_sql_db_plugin.Tests.Worlds.{traces}

abbrev pub self : SqlDatabase
self = record {
  system_account = "eosio";
  m_block_num_start = 0;
  m_action_filter_on = "transfer" ∷ [];
  m_contract_filter_out = [];
}

abbrev pub tc : TransactionTrace
tc = record { id = "t1"; block_num = 5; block_time = 10; action_traces = traces }

abbrev works :
    ℕ → List (Event BlockState TransactionTrace) → List (Event BlockState TransactionTrace)
works zero es = es
works (suc n) es = on_traces true work ∷ works n es

abbrev one_round : List (Event BlockState TransactionTrace)
one_round =
    on_traces true (call tc)
    ∷ on_traces true produce
    ∷ on_traces true produce
    ∷ on_traces true produce
    ∷ on_traces true produce
    ∷ works 10 []

abbrev pub at_rest : Consumer BlockState TransactionTrace
at_rest = record initial {
  traces = record start { worker = asleep; pushed = tc ∷ []; consumed = tc ∷ [] };
}

run-one_round : run 10 one_round initial ≡ some at_rest
unfolding run step move work_at produce_at call_at take_all drain_one
run-one_round = refl
