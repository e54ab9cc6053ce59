-- ===== src/Tools.antt =====
-- src/msk_mcp/tools: a module for each tool or group of tools.
pub mod Cli
pub mod ResetPlan
pub mod Topics
pub mod Group
pub mod GroupList
pub mod Reassignments
pub mod Times
pub mod Configs
pub mod LogDirs
pub mod Cluster
pub mod Acls
pub mod Probe
