-- ===== src/Domain.antt =====
-- src/shadowops/domain: the audit run's lifecycle, the rows that the control database keeps, and
-- the stable errors. Times and UUIDs are numbers; a clock reading or a new UUID is an argument of
-- the operation that takes it.
pub mod Errors
pub mod Lifecycle
pub mod Rows
pub mod Run
