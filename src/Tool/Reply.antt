-- ===== src/Tool/Reply.antt =====
-- `_validate_reply_payload` of tool_service.py, kind by kind.
use opencode_orchestrator.Prelude.{
  Bool, true, false, ◌&&◌, List, [], ◌∷◌, Option, none, some, if◌then◌else◌,
}
use opencode_orchestrator.Prelude.Result.{Result, ok, err, require, ◌>>=◌, ◌>>◌}
use opencode_orchestrator.Text.{Text, codes, texts, text_eq, is_one_of}
use opencode_orchestrator.Value.{Value, str, arr, obj, Items, nil, cons, Fields, get}
use opencode_orchestrator.Tool.{
  ToolInputError, bad_response, always_needs_approval, remember_needs_once, remember_needs_approval,
  bad_answers, bad_kind, unhashable, as_object, check_keys, item, nonblank, all_strings, boolean,
}
use opencode_orchestrator.Tool.Contract.{is_true}

-- `if key in payload: self._boolean(payload[key])`, and the same of `_nonblank`
abbrev pub if_boolean : Option Value → Result ToolInputError Unit
if_boolean none = ok tt
if_boolean (some v) = do b ← boolean v; ok tt

abbrev pub if_nonblank : Option Value → Result ToolInputError Unit
if_nonblank none = ok tt
if_nonblank (some v) = do s ← nonblank v; ok tt

-- `review` and `continue`
unfoldable pub check_text : Fields → Result ToolInputError Unit
check_text payload = do text ← nonblank (item (codes "text") payload); ok tt

unfoldable pub check_continue : Fields → Result ToolInputError Unit
check_continue payload = do
  check_keys payload (texts ("text" ∷ [])) (texts ("text" ∷ "reacquire" ∷ []))
  if_boolean (get (codes "reacquire") payload)
  check_text payload

unfoldable pub check_review : Fields → Result ToolInputError Unit
check_review payload = do
  check_keys payload (texts ("text" ∷ [])) (texts ("text" ∷ []))
  check_text payload

-- `payload["response"] not in {"once", "always", "reject"}`
unfoldable pub response_of : Value → Result ToolInputError Text
response_of (str s) =
    if is_one_of s (texts ("once" ∷ "always" ∷ "reject" ∷ [])) then ok s else err bad_response
response_of (arr vs) = err unhashable
response_of (obj fs) = err unhashable
response_of _ = err bad_response

-- `payload.get("user_approved") is True`, and a basis that is not blank
unfoldable pub check_approval : Fields → ToolInputError → Result ToolInputError Unit
check_approval payload error = do
  require (is_true (item (codes "user_approved") payload)) error
  basis ← nonblank (item (codes "approval_basis") payload)
  ok tt

unfoldable pub check_always : Fields → Text → Result ToolInputError Unit
check_always payload response =
    if text_eq response (codes "always")
    then check_approval payload always_needs_approval
    else ok tt

unfoldable pub check_remembered : Fields → Text → Result ToolInputError Unit
check_remembered payload response = do
  require (text_eq response (codes "once")) remember_needs_once
  check_approval payload remember_needs_approval

unfoldable pub check_remember : Fields → Text → Result ToolInputError Unit
check_remember payload response =
    if is_true (item (codes "remember_for_task") payload)
    then check_remembered payload response
    else ok tt

abbrev permission_reply_keys : List Text
permission_reply_keys =
    texts
      ("request_id" ∷ "response" ∷ "user_approved" ∷ "approval_basis" ∷ "remember_for_task" ∷ [])

unfoldable pub check_permission : Fields → Result ToolInputError Unit
check_permission payload = do
  check_keys payload (texts ("request_id" ∷ "response" ∷ [])) permission_reply_keys
  request_id ← nonblank (item (codes "request_id") payload)
  response ← response_of (item (codes "response") payload)
  if_boolean (get (codes "user_approved") payload)
  if_nonblank (get (codes "approval_basis") payload)
  if_boolean (get (codes "remember_for_task") payload)
  check_always payload response
  check_remember payload response

unfoldable pub all_answers : Items → Bool
all_answers nil = true
all_answers (cons (arr answer) answers) = all_strings answer && all_answers answers
all_answers (cons _ answers) = false

unfoldable pub are_answers : Value → Bool
are_answers (arr answers) = all_answers answers
are_answers _ = false

abbrev question_keys : List Text
question_keys = texts ("request_id" ∷ "answers" ∷ [])

unfoldable pub check_question : Fields → Result ToolInputError Unit
check_question payload = do
  check_keys payload question_keys question_keys
  request_id ← nonblank (item (codes "request_id") payload)
  require (are_answers (item (codes "answers") payload)) bad_answers

unfoldable pub check_reply : Text → Fields → Result ToolInputError Unit
check_reply kind payload =
    if text_eq kind (codes "continue")
    then check_continue payload
    else if text_eq kind (codes "review")
    then check_review payload
    else if text_eq kind (codes "permission")
    then check_permission payload
    else if text_eq kind (codes "question")
    then check_question payload
    else err bad_kind

unfoldable pub validate_reply_payload : Text → Value → Result ToolInputError Fields
validate_reply_payload kind value = do
  payload ← as_object value
  check_reply kind payload
  ok payload
