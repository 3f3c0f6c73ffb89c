-- ===== src/Task/States.antt =====
-- The other states of a task in task_state.py, besides its phase: how it is executed, who waits for it
-- and how far its review is; and `new_task_id`.
use opencode_orchestrator.Prelude.{◌++◌, Option, none, some, is_empty, if◌then◌else◌}
use opencode_orchestrator.Text.{Text, codes}

pub data ExecutionState : Type 0 where
  preparing running input_required stalled completed failed aborted : ExecutionState

pub data WaitState : Type 0 where
  detached attached cancelled : WaitState

pub data ReviewState : Type 0 where
  pending ready reviewing revision_requested passed awaiting_integration : ReviewState

abbrev pub execution_state_text : ExecutionState → Text
execution_state_text preparing = codes "PREPARING"
execution_state_text running = codes "RUNNING"
execution_state_text input_required = codes "INPUT_REQUIRED"
execution_state_text stalled = codes "STALLED"
execution_state_text completed = codes "COMPLETED"
execution_state_text failed = codes "FAILED"
execution_state_text aborted = codes "ABORTED"

abbrev pub wait_state_text : WaitState → Text
wait_state_text detached = codes "DETACHED"
wait_state_text attached = codes "ATTACHED"
wait_state_text cancelled = codes "CANCELLED"

abbrev pub review_state_text : ReviewState → Text
review_state_text pending = codes "PENDING"
review_state_text ready = codes "READY"
review_state_text reviewing = codes "REVIEWING"
review_state_text revision_requested = codes "REVISION_REQUESTED"
review_state_text passed = codes "PASSED"
review_state_text awaiting_integration = codes "AWAITING_INTEGRATION"

-- `given or other`
abbrev pub text_or : Option Text → Text → Text
text_or none other = other
text_or (some given) other = if is_empty given then other else given

-- `clock` is the formatted local time and `token` the random suffix that the defaults ask for
unfoldable pub new_task_id : Text → Text → Option Text → Option Text → Text
new_task_id clock token now entropy =
    codes "oc-" ++ (text_or now clock ++ (codes "-" ++ text_or entropy token))
