-- ===== src/Tests.antt =====
-- Runs of the model on concrete inputs, and the theorems at such inputs.
pub mod Samples
mod ResetPlan
mod Executor
mod Registry
mod Topics
mod Group
mod Server
mod Reports
mod Probe
mod Calls
mod Acls
mod Orphans
