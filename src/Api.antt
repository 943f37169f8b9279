-- ===== src/Api.antt =====
-- sql_db_apis::read_only (sql_db_plugin/sql_db_plugin.cpp and its header): the queries of the HTTP
-- interface.
pub mod Chainbase
pub mod Tokens
pub mod Decimal
pub mod Amount
pub mod Found
pub mod Listed
pub mod Stored
pub mod Resources
pub mod Latest
pub mod Proposals
pub mod Params
pub mod Results
