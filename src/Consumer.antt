-- ===== src/Consumer.antt =====
-- consumer (sql_db_plugin/consumer.hpp): two worker threads, run_blocks and run_traces, each fed
-- through a queue of its own with a mutex of its own, one condition variable for both, and the flag
-- `exit` that `shutdown` and the destructor set.
pub mod Channel
pub mod Invariant
pub mod System
pub mod Runs
pub mod Shutdown
pub mod Progress
pub mod Batch
pub mod Flow
pub mod Steps
pub mod Ending
pub mod Safety
