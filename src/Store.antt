-- ===== src/Store.antt =====
-- src/shadowops/persistence: the control database and its transactions. A table is a list of rows,
-- and a statement is a function on the database that returns its value with the new database, or
-- raises.
pub mod Database
pub mod Runs
pub mod Steps
pub mod Outbox
pub mod Results
