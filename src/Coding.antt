-- ===== src/Coding.antt =====
-- marcus_code/runtime: the contract of a task, the modes, the effort levels and the workflow tracker
-- of the coding agent.
pub mod Patterns
pub mod Contract
pub mod Coherent
pub mod Evidence
pub mod Modes
pub mod Effort
pub mod Finish
pub mod Calls
pub mod Tracker
pub mod Trimming
pub mod Trimmed
