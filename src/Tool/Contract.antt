-- ===== src/Tool/Contract.antt =====
-- What a task is created with, in tool_service.py: `_model`, `_risk`, `_task_contract`,
-- `_review_evidence` and `_slug`. A check returns the value itself, as `deepcopy` does.
use opencode_orchestrator.Prelude.{
  ℕ, zero, suc, Bool, true, false, ◌&&◌, ◌||◌, List, [], ◌∷◌, ◌==◌, leb, is_empty, if◌then◌else◌,
}
use opencode_orchestrator.Prelude.Result.{Result, ok, require, ◌>>=◌, ◌>>◌}
use opencode_orchestrator.Text.{Text, codes, texts}
use opencode_orchestrator.Value.{Value, bool, Fields}
use opencode_orchestrator.Tool.{
  ToolInputError, tests_not_passed, as_object, check_keys, item, nonblank, string_list, boolean,
  integer,
}

abbrev model_keys : List Text
model_keys = texts ("providerID" ∷ "modelID" ∷ [])

unfoldable pub model_of : Value → Result ToolInputError Fields
model_of value = do
  model ← as_object value
  check_keys model model_keys model_keys
  provider ← nonblank (item (codes "providerID") model)
  name ← nonblank (item (codes "modelID") model)
  ok model

abbrev risk_keys : List Text
risk_keys = texts (
    "file_count" ∷ "line_count" ∷ "cross_module" ∷ "public_interface" ∷ "dependency_change"
    ∷ "high_risk_actions" ∷ [])

unfoldable pub risk_of : Value → Result ToolInputError Fields
risk_of value = do
  risk ← as_object value
  check_keys risk risk_keys risk_keys
  file_count ← integer (item (codes "file_count") risk) 0 1000000000
  line_count ← integer (item (codes "line_count") risk) 0 1000000000000
  cross_module ← boolean (item (codes "cross_module") risk)
  public_interface ← boolean (item (codes "public_interface") risk)
  dependency_change ← boolean (item (codes "dependency_change") risk)
  high_risk_actions ← string_list (item (codes "high_risk_actions") risk) false
  ok risk

abbrev contract_keys : List Text
contract_keys = texts (
    "goal" ∷ "non_goals" ∷ "approved_plan" ∷ "allowed_paths" ∷ "forbidden_actions"
    ∷ "acceptance_criteria" ∷ "test_commands" ∷ "risk" ∷ "user_approved" ∷ [])

unfoldable pub task_contract_of : Value → Result ToolInputError Fields
task_contract_of value = do
  contract ← as_object value
  check_keys contract contract_keys contract_keys
  goal ← nonblank (item (codes "goal") contract)
  non_goals ← string_list (item (codes "non_goals") contract) false
  approved_plan ← string_list (item (codes "approved_plan") contract) false
  allowed_paths ← string_list (item (codes "allowed_paths") contract) true
  forbidden_actions ← string_list (item (codes "forbidden_actions") contract) false
  acceptance_criteria ← string_list (item (codes "acceptance_criteria") contract) false
  test_commands ← string_list (item (codes "test_commands") contract) false
  risk ← risk_of (item (codes "risk") contract)
  user_approved ← boolean (item (codes "user_approved") contract)
  ok contract

abbrev evidence_keys : List Text
evidence_keys = texts ("tests_passed" ∷ "review_summary" ∷ [])

-- `value is True`
abbrev pub is_true : Value → Bool
is_true (bool b) = b
is_true _ = false

unfoldable pub review_evidence_of : Value → Result ToolInputError Fields
review_evidence_of value = do
  evidence ← as_object value
  check_keys evidence evidence_keys evidence_keys
  require (is_true (item (codes "tests_passed") evidence)) tests_not_passed
  review_summary ← nonblank (item (codes "review_summary") evidence)
  ok evidence

abbrev is_slug_char : ℕ → Bool
is_slug_char c = (leb b'a' c && leb c b'z') || (leb b'0' c && leb c b'9')

-- `re.sub(r"[^a-z0-9]+", "-", s)`; the flag says that the character before is part of a run
unfoldable pub dashed : Bool → Text → Text
dashed in_run [] = []
dashed in_run (c ∷ s) = elim (is_slug_char c) [
  | true ↦ c ∷ dashed false s
  | false ↦ elim in_run [ true ↦ dashed true s | false ↦ b'-' ∷ dashed true s ]
]

unfoldable pub drop_dashes : Text → Text
drop_dashes [] = []
drop_dashes (c ∷ s) = let rest = drop_dashes s in if c == b'-' then rest else c ∷ s

unfoldable pub drop_last_dashes : Text → Text
drop_last_dashes [] = []
drop_last_dashes (c ∷ s) =
    let rest = drop_last_dashes s in if c == b'-' && is_empty rest then [] else c ∷ rest

unfoldable pub take : ℕ → Text → Text
take zero s = []
take (suc n) [] = []
take (suc n) (c ∷ s) = c ∷ take n s

abbrev or_default : Text → Text
or_default [] = codes "opencode-task"
or_default (c ∷ s) = c ∷ s

unfoldable pub slug_of : (Text → Text) → Text → Text
slug_of lower goal =
    or_default (take 48 (drop_last_dashes (drop_dashes (dashed false (lower goal)))))
