-- ===== src/Logs.antt =====
-- The logs of tasks at the control plane: app/services/node_runtime_service.py.
pub mod Bytes
pub mod Archive
pub mod Chunk
