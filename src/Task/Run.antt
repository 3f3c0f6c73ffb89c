-- ===== src/Task/Run.antt =====
-- To unfold `running` is to unfold all of the task store, as a test wants.
use opencode_orchestrator.Value.{get, put}
use opencode_orchestrator.Task.Phase.{find_phase, phase_of, may_follow}
use opencode_orchestrator.Task.Store.{
  task_dir, write_state, initial_state, create, load, has_task_id, save, put_all, phase_allows,
  transition, mutate, attempts, update,
}
use opencode_orchestrator.Text.Run.{running as text_running}

unfoldable pub running : Unit {0}
unfolding text_running get put find_phase phase_of may_follow task_dir write_state initial_state
    create load has_task_id save put_all phase_allows transition mutate attempts update
running = tt
