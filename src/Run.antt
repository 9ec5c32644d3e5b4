-- ===== src/Run.antt =====
-- harness/db/enums.py, the row `AgentRun` of harness/db/models.py, and
-- harness/runtime/state_machine.py, in three children.
pub mod Status
pub mod Row
pub mod Lifecycle
