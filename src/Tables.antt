-- ===== src/Tables.antt =====
-- The tables that hold one kind of row: sql_db_plugin/db/accounts_table.cpp,
-- transactions_table.cpp and blocks_table.cpp.
pub mod Accounts
pub mod Transactions
pub mod Blocks
pub mod Answers
pub mod Columns
