-- ===== src/Agent.antt =====
-- The agent that runs on a node.
pub mod LogPump
pub mod Client
pub mod Sampler
pub mod Dispatcher
