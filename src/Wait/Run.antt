-- ===== src/Wait/Run.antt =====
-- To unfold `running` is to unfold all of the wait coordinator, as a test wants.
use opencode_orchestrator.Cancellation.{new_token, cancel}
use opencode_orchestrator.Wait.{
  new_coordinator, attach, cancel_lease, cancel_registered, cancel_task, cancel_request_id, forget,
  let_go, register, finish_entry, enter_locked, enter_lock, enter_lease, enter, finish_exit,
  exit_lease, exit,
}
use opencode_orchestrator.Wait.Repair.{
  pid_is_alive, is_schema_3, is_attached_state, owner_pid, repair_wait, repair, finish_repair,
  repair_locked, repair_owned, repair_loaded, repair_owner, repair_stale_owners, start,
}
use opencode_orchestrator.Task.Run.{running as task_running}

unfoldable pub running : Unit {0}
unfolding task_running new_token cancel attach cancel_lease cancel_registered cancel_task
    cancel_request_id forget let_go register finish_entry enter_locked enter_lock enter_lease enter
    finish_exit exit_lease exit pid_is_alive is_schema_3 is_attached_state owner_pid repair_wait
    repair finish_repair repair_locked repair_owned repair_loaded repair_owner repair_stale_owners
    start new_coordinator
running = tt
