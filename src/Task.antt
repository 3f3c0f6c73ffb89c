-- ===== src/Task.antt =====
-- src/opencode_orchestrator/task_state.py: the phases of a task, and the store of task states.
pub mod Phase
pub mod States
pub mod Ids
pub mod Store
pub mod Run
pub mod Examples
