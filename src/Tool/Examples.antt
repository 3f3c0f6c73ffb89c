-- ===== src/Tool/Examples.antt =====
-- Runs of tool_service.py: a task that is delegated, a reply that is remembered, a state's answer.
use opencode_orchestrator.Prelude.{◌≡◌, refl, true, false, none, some}
use opencode_orchestrator.Prelude.Result.{Result, ok, err}
use opencode_orchestrator.Text.{Text, codes}
use opencode_orchestrator.Value.{
  Value, pos, null, bool, int, str, arr, obj, nil, cons, Fields, end, field, get,
}
use opencode_orchestrator.Permission.Policy.{PermissionPolicy, policy_value}
use opencode_orchestrator.Permission.Decide.{PermissionDecision}
use opencode_orchestrator.Permission.Evaluate.{evaluate_permission}
use opencode_orchestrator.Task.Store.{task_dir}
use opencode_orchestrator.Tool.{ToolInputError}
use opencode_orchestrator.Tool.Contract.{slug_of}
use opencode_orchestrator.Tool.Call.{transcript, complete_contract}
use opencode_orchestrator.Tool.Bounds.{IsCommand, call-IsCommand}
use opencode_orchestrator.Tool.Ids.{task_id_of-task_dir}
use opencode_orchestrator.Tool.Approved.{IsReply, validate_reply_payload-IsReply}
use opencode_orchestrator.Tool.Evaluable.{complete_contract-evaluate_permission}
use opencode_orchestrator.Tool.Run.{running}

abbrev same_case : Text → Text
same_case s = s

slug_lem : slug_of same_case (codes " fix: the  bug!") ≡ codes "fix-the-bug"
unfolding running
slug_lem = refl

abbrev id : Value
id = str (codes "oc-1")

task_id_of-task_dir_example : task_dir (codes "oc-1") ≡ ok (codes "oc-1")
unfolding running
task_id_of-task_dir_example = task_id_of-task_dir id {task_id = codes "oc-1"} refl refl

call-IsCommand_example : IsCommand (transcript (codes "oc-1") (some (codes "10")) 20 false)
unfolding running
call-IsCommand_example =
    call-IsCommand same_case (codes "http://127.0.0.1:4096") (codes "read_transcript")
      (obj (field (codes "task_id") id (field (codes "cursor") (str (codes "10")) end))) (codes "1")
      {c = transcript (codes "oc-1") (some (codes "10")) 20 false} refl

abbrev remembered : Fields
remembered = field (codes "request_id") (str (codes "per_1")) (
    field (codes "response") (str (codes "once")) (
      field (codes "remember_for_task") (bool true) (
        field (codes "user_approved") (bool true)
          (field (codes "approval_basis") (str (codes "edit src/a.py")) end))))

validate_reply_payload-IsReply_example : IsReply remembered
unfolding running
validate_reply_payload-IsReply_example =
    validate_reply_payload-IsReply (obj remembered) {payload = remembered} refl

abbrev risk : Value
risk = obj (
    field (codes "file_count") (int (pos 1)) (
      field (codes "line_count") (int (pos 10)) (
        field (codes "cross_module") (bool false) (
          field (codes "public_interface") (bool false) (
            field (codes "dependency_change") (bool false)
              (field (codes "high_risk_actions") (arr nil) end))))))

abbrev contract : Fields
contract = field (codes "goal") (str (codes "fix")) (
    field (codes "non_goals") (arr nil) (
      field (codes "approved_plan") (arr nil) (
        field (codes "allowed_paths") (arr (cons (str (codes "src")) nil)) (
          field (codes "forbidden_actions") (arr (cons (str (codes "release")) nil)) (
            field (codes "acceptance_criteria") (arr nil) (
              field (codes "test_commands") (arr nil)
                (field (codes "risk") risk (field (codes "user_approved") (bool true) end))))))))

abbrev arguments : Fields
arguments =
    field (codes "repo_path") (str (codes "/repo"))
      (field (codes "task_contract") (obj contract) end)

abbrev completed : Result ToolInputError Fields → Fields
completed (ok fs) = fs
completed (err e) = end

complete_contract-evaluate_permission_example :
    (p : PermissionPolicy) × (get
        (codes "permission_policy")
        (completed (complete_contract arguments))
      ≡ some (policy_value p))
    × (d : PermissionDecision) × (evaluate_permission same_case
          (policy_value p)
          null
          (obj (completed (complete_contract arguments)))
          none
        ≡ ok d)
unfolding running
complete_contract-evaluate_permission_example =
    complete_contract-evaluate_permission same_case arguments
      {contract = completed (complete_contract arguments)} null none refl

abbrev stalled : Fields
stalled = field (codes "task_id") id (
    field (codes "execution_state") (str (codes "STALLED"))
      (field (codes "wait_state") (str (codes "DETACHED")) end))
