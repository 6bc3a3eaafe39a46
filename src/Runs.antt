-- ===== src/Runs.antt =====
-- apps/automation: the life of a run.
pub mod Model
pub mod Policy
pub mod Transition
pub mod Execution
pub mod Actions
pub mod Examples
