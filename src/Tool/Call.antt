-- ===== src/Tool/Call.antt =====
-- `ToolService.call` of tool_service.py up to its calls of the service: a call that passes its tool's checks
-- is a `Command`, which has the arguments of those calls. `lower` is `str.lower`, and `server_default`
-- what the environment has for the server's address, or else the default one. The tools' names are
-- those of `TOOL_DEFINITIONS` in tools.py.
use opencode_orchestrator.Prelude.{
  ℕ, Bool, false, ◌&&◌, ◌||◌, List, [], ◌∷◌, Option, none, some, ◌==◌, leb, all, is_empty,
  if◌then◌else◌,
}
use opencode_orchestrator.Prelude.Result.{Result, ok, err, require, ◌>>=◌, ◌>>◌}
use opencode_orchestrator.Text.{Text, codes, texts, text_eq, is_one_of, starts_with}
use opencode_orchestrator.Value.{Value, pos, null, bool, int, str, obj, Fields, get, put}
use opencode_orchestrator.Permission.Policy.{PolicyError, normalize_permission_policy, policy_value}
use opencode_orchestrator.Permission.Progress.{normalize_progress_policy, progress_policy_value}
use opencode_orchestrator.Tool.{
  ToolInputError, bad_cursor, bad_policy, relative_repo, unknown_tool, as_object, check_keys, item,
  get_or, nonblank, boolean, integer, task_id_of, timeout,
}
use opencode_orchestrator.Tool.Contract.{model_of, task_contract_of, review_evidence_of, slug_of}
use opencode_orchestrator.Tool.Reply.{validate_reply_payload}

pub record Delegation : Type 0 where
  pub repo_path : Text
  pub slug : Text
  pub contract : Fields
  pub server_url : Text
  pub timeout_seconds : ℕ

pub data Command : Type 0 where
  delegate : Delegation → Command
  reply : Text → Text → Fields → ℕ → Command
  resume : Text → ℕ → Command
  status : Text → Command
  transcript : Text → Option Text → ℕ → Bool → Command
  collect : Text → Option Fields → Command
  cancel_wait : Text → Text → Command
  abort : Text → Command

-- `ToolInputError(str(error))`
abbrev pub lift_policy_error : {A : Type 0} → Result PolicyError A → Result ToolInputError A
lift_policy_error (ok a) = ok a
lift_policy_error (err e) = err (bad_policy e)

unfoldable pub with_model : Option Value → Fields → Result ToolInputError Fields
with_model none contract = ok contract
with_model (some v) contract = do model ← model_of v; ok (put (codes "model") (obj model) contract)

-- the checked contract with the policies, the model and the effort
unfoldable pub complete_contract : Fields → Result ToolInputError Fields
complete_contract arguments = do
  contract ← task_contract_of (item (codes "task_contract") arguments)
  permission ←
      lift_policy_error (normalize_permission_policy (item (codes "permission_policy") arguments))
  progress ←
      lift_policy_error (normalize_progress_policy (item (codes "progress_policy") arguments))
  with_policies ← with_model (get (codes "model") arguments) (
      put (codes "progress_policy") (progress_policy_value progress)
        (put (codes "permission_policy") (policy_value permission) contract))
  effort ← nonblank (get_or (get (codes "effort") arguments) (str (codes "max")))
  ok (put (codes "effort") (str effort) with_policies)

abbrev goal_of : Fields → Text
goal_of contract = text_of (item (codes "goal") contract)
  where
    text_of : Value → Text
    text_of (str s) = s
    text_of _ = []

unfoldable pub delegate_of : (Text → Text) → Text → Fields → Result ToolInputError Command
delegate_of lower server_default arguments = do
  check_keys arguments (texts ("repo_path" ∷ "task_contract" ∷ [])) (
      texts (
        "repo_path" ∷ "task_contract" ∷ "slug" ∷ "model" ∷ "effort" ∷ "timeout_seconds"
        ∷ "server_url" ∷ "permission_policy" ∷ "progress_policy" ∷ []))
  repo_path ← nonblank (item (codes "repo_path") arguments)
  require (starts_with (codes "/") repo_path) relative_repo
  contract ← complete_contract arguments
  seconds ← timeout arguments
  slug ← nonblank (get_or (get (codes "slug") arguments) (str (slug_of lower (goal_of contract))))
  server_url ← nonblank (get_or (get (codes "server_url") arguments) (str server_default))
  ok (
      delegate (record {
        repo_path = repo_path;
        slug = slug;
        contract = contract;
        server_url = server_url;
        timeout_seconds = seconds;
      }))

unfoldable pub reply_of : Fields → Result ToolInputError Command
reply_of arguments = do
  check_keys arguments (texts ("task_id" ∷ "kind" ∷ "payload" ∷ []))
      (texts ("task_id" ∷ "kind" ∷ "payload" ∷ "timeout_seconds" ∷ []))
  task_id ← task_id_of (item (codes "task_id") arguments)
  kind ← nonblank (item (codes "kind") arguments)
  payload ← validate_reply_payload kind (item (codes "payload") arguments)
  seconds ← timeout arguments
  ok (reply task_id kind payload seconds)

abbrev task_key : List Text
task_key = texts ("task_id" ∷ [])

unfoldable pub resume_of : Fields → Result ToolInputError Command
resume_of arguments = do
  check_keys arguments task_key (texts ("task_id" ∷ "timeout_seconds" ∷ []))
  task_id ← task_id_of (item (codes "task_id") arguments)
  seconds ← timeout arguments
  ok (resume task_id seconds)

unfoldable pub status_of : Fields → Result ToolInputError Command
status_of arguments = do
  check_keys arguments task_key task_key
  task_id ← task_id_of (item (codes "task_id") arguments)
  ok (status task_id)

abbrev is_digit : ℕ → Bool
is_digit c = leb b'0' c && leb c b'9'

-- `0|[1-9][0-9]*`
unfoldable pub is_decimal : Text → Bool
is_decimal [] = false
is_decimal (c ∷ s) = (c == b'0' && is_empty s) || (leb b'1' c && leb c b'9' && all is_digit s)

unfoldable pub cursor_of : Option Value → Result ToolInputError (Option Text)
cursor_of none = ok none
cursor_of (some null) = ok none
cursor_of (some (str s)) = if is_decimal s then ok (some s) else err bad_cursor
cursor_of (some _) = err bad_cursor

unfoldable pub transcript_of : Fields → Result ToolInputError Command
transcript_of arguments = do
  check_keys arguments task_key
      (texts ("task_id" ∷ "cursor" ∷ "limit" ∷ "include_tool_output" ∷ []))
  task_id ← task_id_of (item (codes "task_id") arguments)
  cursor ← cursor_of (get (codes "cursor") arguments)
  limit ← integer (get_or (get (codes "limit") arguments) (int (pos 20))) 1 100
  include_tool_output ← boolean (get_or (get (codes "include_tool_output") arguments) (bool false))
  ok (transcript task_id cursor limit include_tool_output)

unfoldable pub evidence_of : Option Value → Result ToolInputError (Option Fields)
evidence_of none = ok none
evidence_of (some v) = do evidence ← review_evidence_of v; ok (some evidence)

unfoldable pub collect_of : Fields → Result ToolInputError Command
collect_of arguments = do
  check_keys arguments task_key (texts ("task_id" ∷ "review_evidence" ∷ []))
  task_id ← task_id_of (item (codes "task_id") arguments)
  evidence ← evidence_of (get (codes "review_evidence") arguments)
  ok (collect task_id evidence)

unfoldable pub cancel_wait_of : Fields → Result ToolInputError Command
cancel_wait_of arguments = do
  check_keys arguments task_key (texts ("task_id" ∷ "reason" ∷ []))
  task_id ← task_id_of (item (codes "task_id") arguments)
  reason ← nonblank (get_or (get (codes "reason") arguments) (str (codes "external-cancel")))
  ok (cancel_wait task_id reason)

unfoldable pub abort_of : Fields → Result ToolInputError Command
abort_of arguments = do
  check_keys arguments task_key task_key
  task_id ← task_id_of (item (codes "task_id") arguments)
  ok (abort task_id)

abbrev tool_names : List Text
tool_names = texts (
    "delegate_and_wait" ∷ "reply_and_wait" ∷ "resume_wait" ∷ "task_status" ∷ "read_transcript"
    ∷ "collect_result" ∷ "cancel_wait" ∷ "abort_task" ∷ [])

-- the branch of a tool; a name that is in `TOOL_NAMES` has one
unfoldable pub command_of : (Text → Text) → Text → Text → Fields → Result ToolInputError Command
command_of lower server_default name arguments =
    if text_eq name (codes "delegate_and_wait")
    then delegate_of lower server_default arguments
    else if text_eq name (codes "reply_and_wait")
    then reply_of arguments
    else if text_eq name (codes "resume_wait")
    then resume_of arguments
    else if text_eq name (codes "task_status")
    then status_of arguments
    else if text_eq name (codes "read_transcript")
    then transcript_of arguments
    else if text_eq name (codes "collect_result")
    then collect_of arguments
    else if text_eq name (codes "cancel_wait")
    then cancel_wait_of arguments
    else if text_eq name (codes "abort_task")
    then abort_of arguments
    else err unknown_tool

unfoldable pub call : (Text → Text) → Text → Text → Value → Text → Result ToolInputError Command
call lower server_default name value request_id = do
  require (is_one_of name tool_names) unknown_tool
  arguments ← as_object value
  request ← nonblank (str request_id)
  command_of lower server_default name arguments
