-- ===== src/Tasks.antt =====
-- The life of a task in the control plane: app/task_utils.py, app/services/task_state.py and the
-- statements of app/db.py that claim a task for a node.
pub mod Status
pub mod Table
pub mod Metrics
pub mod Transition
pub mod Finalize
pub mod Claim
pub mod Reports
pub mod History
