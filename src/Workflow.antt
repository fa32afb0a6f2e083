-- ===== src/Workflow.antt =====
-- How the control database changes: every use case that commits is a sequence of changes of three
-- kinds, and the invariant of the tables is proved once for each kind.
pub mod Change
pub mod Invariant
pub mod Quiet
pub mod Advance
pub mod Creation
pub mod Rows
pub mod History
pub mod World
