-- ===== src/Engine.antt =====
-- harness/runtime/engine.py: the loop that calls the model and runs the tools that it asks for.
pub mod Plan
pub mod Planned
pub mod Meta
pub mod Disclosure
pub mod State
pub mod Control
pub mod Calls
pub mod Batch
pub mod Asking
pub mod Step
pub mod Saved
pub mod Keeping
pub mod Kept
pub mod Counted
pub mod Stepped
pub mod Ended
pub mod Acted
pub mod Loop
pub mod Limits
pub mod Dropped
pub mod Evidence
pub mod Locked
