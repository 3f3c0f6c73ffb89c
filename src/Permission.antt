-- ===== src/Permission.antt =====
-- src/opencode_orchestrator/permission_policy.py: one child for each group of its functions.
pub mod Paths
pub mod Policy
pub mod Progress
pub mod Edit
pub mod Options
pub mod ReadOnly
pub mod Runner
pub mod Risk
pub mod Plain
pub mod Decide
pub mod Evaluate
pub mod Run
pub mod Examples
