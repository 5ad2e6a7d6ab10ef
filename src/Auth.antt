-- ===== src/Auth.antt =====
-- How a node's requests are authenticated.
pub mod Keys
pub mod Nodes
pub mod Request
pub mod Admin
