-- ===== src/Lib.antt =====
-- sql_db_plugin, a plugin of nodeos that stores the actions of a chain in a MySQL database and
-- answers queries on tokens, resources and proposals.
--
-- The node's signal applied_transaction reaches the lambda of `plugin_initialize`, which drops the
-- transactions of early blocks and onblock ones and pushes the others to the queue of the
-- `consumer`. A worker thread of the consumer takes whole batches from the queue and gives each
-- trace to `sql_database`, which walks the tree of inline traces and calls `actions_table::add` for
-- the actions that it stores, under a session of the pool. The queries of `read_only` read the
-- tokens from the table `assets` and from the chain's own database.
--
-- Files, in the order of their use:
-- - Base: numbers, texts, lists and integers for all files; Int64 has the operations on int64_t that
--   asset_amount_to_string uses, with two's complement for what is out of range. Effect: calls with
--   a state that may throw, try and catch, range-for, destructors; Effect/Keeps and Effect/Hoare:
--   what holds of the state after such calls, and Effect/Yields: of what they return;
--   Effect/Simulates and Effect/Silent: what such calls do to a view of the state.
-- - Sql: sessions and statements as the tables use them. soci and the MySQL client are not in the
--   repository, so they are a parameter, the record `Driver`; where a theorem needs what they
--   document it takes a record of laws: `LeaseLaws` for the pool's count of leased sessions,
--   `PoolLaws` for what leasing leaves alone, `ProposalLaws` for the table proposal and
--   `AccountsLaws` for the table accounts, both with which rows the server accepts, and `ServerLaws`
--   and `QueryLaws` for all that actions_table writes and reads.
-- - Schema: the tables of eos.sql that the plugin writes, with their columns by kind (widths, keys
--   and defaults are left out), and Queries, which reads from the text of a statement its table, its
--   columns and its placeholders; no SQL is run.
-- - Chain: the structures of nodeos that reach the plugin, and its calls of nodeos and fc, which are
--   the parameter `ChainLib`. Names, ids and times stand as what the code makes of them.
-- - Tables/Accounts, Tables/Transactions, Tables/Blocks: sql_db_plugin/db/accounts_table.cpp,
--   transactions_table.cpp and blocks_table.cpp. An uninitialised variable is an argument.
-- - Actions: sql_db_plugin/db/actions_table.cpp. Statements has the SQL texts with the values bound
--   to them, AddData the call add_data, Parse the call parse_actions, Add the call add; Issued lists
--   the statements that add gives to the driver; Lifecycle is about the rows of the table proposal.
-- - Session: sql_db_plugin/include/eosio/sql_db_plugin/session_pool.hpp. A shared_ptr to a session
--   is the number that its destructor gives back.
-- - Database: sql_db_plugin/db/database.cpp.
-- - Contents: what the tables of eos.sql hold that actions_table writes, and Contents/Reference, a
--   server on this state that knows the statements by their texts. What MySQL does with a value is
--   left open in the parameter `Server`: which writes it refuses, and how a column of type json gives
--   a text back. Contents/Actions says with no calls and no exceptions what an action makes of the
--   tables, Traces says it of transactions; Simulation carries the code from any server that has
--   `ServerLaws` to the reference, and Recording, Writes and Parsing compute it there. Queries has
--   what the queries read, Rows and Invariant what the rows of assets and actions have in common,
--   Once and Exactly which rows of actions are added. AbiText and AbiSets say which writes and which
--   actions leave the ABI of an account as it is, Decoded what an ABI that is set is good for.
-- - Consumer: sql_db_plugin/consumer.hpp. Channel is one queue with its producer and its worker,
--   each at a place of its code; System is both queues with the thread that closes them. An event is
--   one atomic step of one thread, a schedule a list of events, and `Reach` what any schedule leads
--   to. The condition variable is shared, so a notification of one queue may go to the other's
--   worker, and a wait may end by itself. Flow says what a step takes in and hands on, Steps and
--   Ending which steps leave a queue alone or set `exit`.
-- - Plugin: the options, the start, the signal handler and get_read_only_api of
--   sql_db_plugin/sql_db_plugin.cpp. The start opens two pools, the parameter `Pools`: a Driver for
--   each, over one state. What the configuration gives is the parameter `Given`. Node is the plugin
--   in a running node: the consumer, the database that its consume calls write, and the signals sent
--   so far. A signal runs the lambda when the call of the one before it has returned; `Run` is what
--   any order of signals and steps of the threads leads to. A consume call is one step with the
--   round of the loop that makes it. Nothing signals accepted_block, so no entry reaches the queue
--   of the blocks. Node/Tables says what the tables then hold, and Node/Served what a request is
--   answered from them, by Api/Stored and Http/Stored.
-- - Api: the queries of the same file and of its header. Tokens has those on tokens, where the state
--   of a walk is the vector of tokens, Resources get_userresource and get_refund, Proposals those on
--   proposals, where the state is the vector of proposals with the variable `pro`, and Chainbase the
--   walk over a table of the chain's database. Parameters are `Chainbase`, the database;
--   `RowReader`, how rows are read by an ABI; and `MsigReader`, how those of eosio.msig and the
--   transactions in them are. `DecimalLaws` has what is documented of asset::precision and
--   fc::to_string. Params and Results have the structures of the parameters and of the results with
--   the lists of FC_REFLECT, over fc's conversions, the parameter `JsonLib`.
-- - Http: sql_db_api_plugin/sql_db_api_plugin.cpp. Http has the handler that the macro CALL makes,
--   Calls the eight calls and plugin_startup; Requests names the queries with their parameters, and
--   Conversions reads these from the body's object. The HTTP plugin is the parameter `HttpPlugin`,
--   with `HttpLaws` for what it documents; `JsonLaws` has what fc documents of a class with
--   FC_REFLECT. The state of a handler is the database with the connection.
-- - Tests: the theorems at concrete inputs.
--
-- No model here needs fuel: the walk over the inline traces is by recursion on them, the loops by
-- recursion on the list, and the worker's loops are steps of which a schedule takes as many as it
-- likes. Exceptions are the four kinds that the catch clauses tell apart.
--
-- Not modelled: the log, the help texts of the options, and that a soci rowset reads its rows one by
-- one. The lines that no definition stands for are includes, namespaces, declarations of classes and
-- members whose definitions are modelled, empty constructors and destructors, connections that are
-- commented out, and plugin_startup and plugin_shutdown of sql_db_plugin, which only write to the log.
-- consumer::queue reads the queue's size once without the mutex; the model takes the read as
-- atomic.
pub mod Base
pub mod Effect
pub mod Sql
pub mod Schema
pub mod Chain
pub mod Tables
pub mod Actions
pub mod Session
pub mod Database
pub mod Consumer
pub mod Contents
pub mod Plugin
pub mod Api
pub mod Http
pub mod Tests
