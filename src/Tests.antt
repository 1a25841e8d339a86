-- ===== src/Tests.antt =====
-- Concrete runs of the theorems.
mod Samples
mod Tasks
mod Approvals
mod Accounts
mod Tokens
mod Workers
mod GitOps
mod Runs
mod CloudRuns
mod Sessions
