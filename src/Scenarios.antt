-- ===== src/Scenarios.antt =====
-- The theorems at concrete inputs.
mod Rows
mod Tasks
mod Scanner
mod Review
mod Client
mod Sampler
mod Dispatcher
mod Admin
mod Artifacts
mod Listing
mod Logs
mod Auth
mod Agent
mod Reports
mod Webhook
