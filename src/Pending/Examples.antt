-- ===== src/Pending/Examples.antt =====
-- Runs of pending_input.py on one request of each kind.
use opencode_orchestrator.Prelude.{◌≡◌, refl, Bool, false, [], ◌∷◌, none, some}
use opencode_orchestrator.Prelude.Result.{ok}
use opencode_orchestrator.Text.{Text, codes}
use opencode_orchestrator.Value.{Value, str, arr, obj, nil, cons, end, field}
use opencode_orchestrator.Permission.Policy.{PermissionPolicy, ask, task}
use opencode_orchestrator.Permission.Evaluate.{evaluate_request, evaluate_targets}
use opencode_orchestrator.Pending.{
  PermissionRequest, normalize_permission_request, permission_request_value, permission_properties,
}
use opencode_orchestrator.Pending.Questions.{
  QuestionRequest, normalize_question_request, question_properties,
}
use opencode_orchestrator.Pending.Permissions.{
  without_source, normalize_permission_request-permission_properties, evaluate_request-normalized,
}
use opencode_orchestrator.Pending.Asked.{normalize_question_request-question_properties}
use opencode_orchestrator.Pending.Run.{running}

abbrev never_same : Value → Value → Bool
never_same _ _ = false

abbrev session : Text
session = codes "ses_1"

-- a request that spells its permission and its targets in both ways
abbrev asked : Value
asked = obj (
    field (codes "id") (str (codes "per_1")) (
      field (codes "sessionID") (str session) (
        field (codes "action") (str (codes "edit")) (
          field (codes "permission") (str (codes "edit")) (
            field (codes "patterns") (arr (cons (str (codes "src/a.py")) nil)) (
              field (codes "tool") (obj (field (codes "callID") (str (codes "call_1")) end))
                end))))))

abbrev request : PermissionRequest
request = record {
  request_id = codes "per_1";
  session_id = session;
  permission = codes "edit";
  patterns = codes "src/a.py" ∷ [];
  message_id = none;
  call_id = some (codes "call_1");
}

normalize_permission_request-permission_properties_example :
    normalize_permission_request never_same (permission_properties request) session
    ≡ ok (without_source request)
unfolding running
normalize_permission_request-permission_properties_example =
    normalize_permission_request-permission_properties never_same asked session {r = request} refl

abbrev question : Value
question = obj (
    field (codes "id") (str (codes "que_1")) (
      field (codes "sessionID") (str session) (
        field (codes "questions")
          (arr (
            cons
              (obj (
                field (codes "header") (str (codes "Name")) (
                  field (codes "question") (str (codes "Which?")) (
                    field (codes "options")
                      (arr (cons (obj (field (codes "label") (str (codes "a")) end)) nil)) end))))
              nil))
          end)))

abbrev question_request : QuestionRequest
question_request = record {
  request_id = codes "que_1";
  session_id = session;
  questions =
      record {
        header = codes "Name";
        question = codes "Which?";
        options = some (record { label = codes "a"; description = none } ∷ []);
      }
      ∷ [];
}

normalize_question_request-question_properties_example :
    normalize_question_request (question_properties question_request) session ≡ ok question_request
unfolding running
normalize_question_request-question_properties_example =
    normalize_question_request-question_properties question session {r = question_request} refl

abbrev cautious : PermissionPolicy
cautious = record { default = ask; persistence = task; approval_basis = none; rules = [] }

evaluate_request-normalized_example :
    evaluate_request (λ s. s) cautious (obj (permission_request_value request)) (obj end) none
    ≡ evaluate_targets (λ s. s) cautious (codes "edit") (codes "src/a.py" ∷ []) (obj end) none
unfolding running
evaluate_request-normalized_example =
    evaluate_request-normalized never_same asked session {r = request} (λ s. s) cautious (obj end)
      none refl
