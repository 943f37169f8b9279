-- ===== src/Actions.antt =====
-- actions_table (sql_db_plugin/db/actions_table.cpp and its header).
pub mod Statements
pub mod AddData
pub mod Parse
pub mod Add
pub mod Issued
pub mod Bound
pub mod Fitting
pub mod Rows
pub mod Answers
pub mod Like
pub mod Lifecycle
