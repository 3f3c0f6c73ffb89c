-- ===== src/Tool/Bounds.antt =====
-- The commands that tool_service.py makes: within the bounds that the service relies on.
use opencode_orchestrator.Prelude.{
  ℕ, ◌≡◌, ◌≤◌, true, false, ◌||◌, Option, none, some, arith, ltb, if_ind, IfSome,
}
use opencode_orchestrator.Prelude.Result.{
  Result, ok, ◌>>=◌, ◌>>◌, IfOk, IfOk-ok, IfOk-bind, IfOk-skip, IfOk-require,
}
use opencode_orchestrator.Text.{Text, codes, text_eq, starts_with, is_blank}
use opencode_orchestrator.Value.{
  Value, pos, negsuc, null, bool, int, float, str, arr, obj, Fields, get,
}
use opencode_orchestrator.Tool.{
  ToolInputError, bad_task_id, relative_repo, as_object, item, get_or, nonblank, boolean, integer,
  matches_task_id, task_id_of, timeout, timeout_min, timeout_max,
}
use opencode_orchestrator.Tool.Reply.{validate_reply_payload}
use opencode_orchestrator.Tool.Call.{
  Command, delegate, reply, resume, status, transcript, collect, cancel_wait, abort,
  complete_contract, delegate_of, reply_of, resume_of, status_of, is_decimal, cursor_of,
  transcript_of, evidence_of, collect_of, cancel_wait_of, abort_of, command_of, call,
}

abbrev pub IsTaskId : Text → Type 0
IsTaskId t = matches_task_id t ≡ true

abbrev pub IsFilled : Text → Type 0
IsFilled s = is_blank s ≡ false

abbrev pub IsBetween : ℕ → ℕ → ℕ → Type 0
IsBetween a b n = (a ≤ n) × (n ≤ b)

abbrev pub IsTimeout : ℕ → Type 0
IsTimeout = IsBetween timeout_min timeout_max

abbrev pub IsCommand : Command → Type 0
IsCommand (delegate d) =
    (starts_with (codes "/") d.repo_path ≡ true)
    × IsFilled d.slug
    × IsFilled d.server_url
    × IsTimeout d.timeout_seconds
IsCommand (reply t kind payload seconds) = IsTaskId t × IsFilled kind × IsTimeout seconds
IsCommand (resume t seconds) = IsTaskId t × IsTimeout seconds
IsCommand (status t) = IsTaskId t
IsCommand (transcript t cursor limit include) =
    IsTaskId t × IfSome (λ s. is_decimal s ≡ true) cursor × IsBetween 1 100 limit
IsCommand (collect t evidence) = IsTaskId t
IsCommand (cancel_wait t reason) = IsTaskId t × IsFilled reason
IsCommand (abort t) = IsTaskId t

nonblank-IsFilled : (v : Value) → IfOk IsFilled (nonblank v)
unfolding nonblank
nonblank-IsFilled (str s) = if_ind (IfOk IsFilled) (is_blank s) _ _ (λ _. tt) (λ filled. filled)
nonblank-IsFilled null = tt
nonblank-IsFilled _ = tt

integer-IsBetween : (v : Value) (a b : ℕ) → IfOk (IsBetween a b) (integer v a b)
unfolding integer
integer-IsBetween (int (pos n)) a b =
    if_ind (IfOk (IsBetween a b)) (ltb n a || ltb b n) _ _ (λ _. tt)
      (λ within. (ground arith, ground arith))
integer-IsBetween (int (negsuc n)) a b = tt
integer-IsBetween null a b = tt
integer-IsBetween (bool x) a b = tt
integer-IsBetween (float x) a b = tt
integer-IsBetween (str s) a b = tt
integer-IsBetween (arr vs) a b = tt
integer-IsBetween (obj fs) a b = tt

timeout-IsTimeout : (arguments : Fields) → IfOk IsTimeout (timeout arguments)
unfolding timeout
timeout-IsTimeout arguments =
    integer-IsBetween (get_or (get (codes "timeout_seconds") arguments) (int (pos 3600)))
      timeout_min timeout_max

pub task_id_of-IsTaskId : (v : Value) → IfOk IsTaskId (task_id_of v)
unfolding task_id_of
task_id_of-IsTaskId v =
    IfOk-skip IsTaskId (nonblank v) _
      λ t. IfOk-require IsTaskId (matches_task_id t) bad_task_id (ok t) λ h. h

cursor_of-IfSome : (o : Option Value) → IfOk (IfSome (λ s. is_decimal s ≡ true)) (cursor_of o)
unfolding cursor_of
cursor_of-IfSome none = tt
cursor_of-IfSome (some (str s)) =
    if_ind (IfOk (IfSome (λ s. is_decimal s ≡ true))) (is_decimal s) _ _ (λ h. h) (λ _. tt)
cursor_of-IfSome (some null) = tt
cursor_of-IfSome (some _) = tt

-- the id of a task, and what the rest of a tool makes of it
task_id-IsCommand :
    (arguments : Fields) (keys_ok : Result ToolInputError Unit)
    (next : Text → Result ToolInputError Command)
    → ((t : Text) → IsTaskId t → IfOk IsCommand (next t))
    → IfOk IsCommand (keys_ok >> (task_id_of (item (codes "task_id") arguments) >>= next))
task_id-IsCommand arguments keys_ok next k = IfOk-skip IsCommand keys_ok _ λ _.
    IfOk-bind IsTaskId IsCommand (task_id_of (item (codes "task_id") arguments)) next
      (task_id_of-IsTaskId (item (codes "task_id") arguments)) k

delegate_of-IsCommand :
    (lower : Text → Text) (server_default : Text) (arguments : Fields)
    → IfOk IsCommand (delegate_of lower server_default arguments)
unfolding delegate_of
delegate_of-IsCommand lower server_default arguments = IfOk-skip IsCommand _ _ λ _.
    IfOk-skip IsCommand (nonblank (item (codes "repo_path") arguments)) _ λ repo_path.
      IfOk-require IsCommand (starts_with (codes "/") repo_path) relative_repo _ λ absolute.
        IfOk-skip IsCommand (complete_contract arguments) _ λ contract.
          IfOk-bind IsTimeout IsCommand (timeout arguments) _ (timeout-IsTimeout arguments)
            λ seconds in_time.
              IfOk-bind IsFilled IsCommand (nonblank _) _ (nonblank-IsFilled _) λ slug slug_filled.
                IfOk-bind IsFilled IsCommand
                  (nonblank (get_or (get (codes "server_url") arguments) (str server_default))) _
                  (nonblank-IsFilled
                    (get_or (get (codes "server_url") arguments) (str server_default)))
                  λ server_url url_filled. (absolute, slug_filled, url_filled, in_time)

reply_of-IsCommand : (arguments : Fields) → IfOk IsCommand (reply_of arguments)
unfolding reply_of
reply_of-IsCommand arguments = task_id-IsCommand arguments _ _ λ t is_id.
    IfOk-bind IsFilled IsCommand (nonblank (item (codes "kind") arguments)) _
      (nonblank-IsFilled (item (codes "kind") arguments))
      λ kind filled.
        IfOk-skip IsCommand (validate_reply_payload kind (item (codes "payload") arguments)) _
          λ payload.
            IfOk-bind IsTimeout IsCommand (timeout arguments) _ (timeout-IsTimeout arguments)
              λ seconds in_time. (is_id, filled, in_time)

resume_of-IsCommand : (arguments : Fields) → IfOk IsCommand (resume_of arguments)
unfolding resume_of
resume_of-IsCommand arguments = task_id-IsCommand arguments _ _ λ t is_id.
    IfOk-bind IsTimeout IsCommand (timeout arguments) _ (timeout-IsTimeout arguments)
      λ seconds in_time. (is_id, in_time)

transcript_of-IsCommand : (arguments : Fields) → IfOk IsCommand (transcript_of arguments)
unfolding transcript_of
transcript_of-IsCommand arguments = task_id-IsCommand arguments _ _ λ t is_id.
    IfOk-bind (IfSome (λ s. is_decimal s ≡ true)) IsCommand
      (cursor_of (get (codes "cursor") arguments)) _
      (cursor_of-IfSome (get (codes "cursor") arguments))
      λ cursor decimal.
        IfOk-bind (IsBetween 1 100) IsCommand
          (integer (get_or (get (codes "limit") arguments) (int (pos 20))) 1 100) _
          (integer-IsBetween (get_or (get (codes "limit") arguments) (int (pos 20))) 1 100)
          λ limit within.
            IfOk-skip IsCommand
              (boolean (get_or (get (codes "include_tool_output") arguments) (bool false))) _
              λ include. (is_id, decimal, within)

collect_of-IsCommand : (arguments : Fields) → IfOk IsCommand (collect_of arguments)
unfolding collect_of
collect_of-IsCommand arguments = task_id-IsCommand arguments _ _ λ t is_id.
    IfOk-skip IsCommand (evidence_of (get (codes "review_evidence") arguments)) _ λ evidence. is_id

cancel_wait_of-IsCommand : (arguments : Fields) → IfOk IsCommand (cancel_wait_of arguments)
unfolding cancel_wait_of
cancel_wait_of-IsCommand arguments = task_id-IsCommand arguments _ _ λ t is_id.
    IfOk-bind IsFilled IsCommand
      (nonblank (get_or (get (codes "reason") arguments) (str (codes "external-cancel")))) _
      (nonblank-IsFilled (get_or (get (codes "reason") arguments) (str (codes "external-cancel"))))
      λ reason filled. (is_id, filled)

command_of-IsCommand :
    (lower : Text → Text) (server_default name : Text) (arguments : Fields)
    → IfOk IsCommand (command_of lower server_default name arguments)
unfolding command_of status_of abort_of
command_of-IsCommand lower server_default name arguments =
    let P = IfOk IsCommand in
    if_ind P (text_eq name (codes "delegate_and_wait")) _ _
      (λ _. delegate_of-IsCommand lower server_default arguments)
      (λ _.
        if_ind P (text_eq name (codes "reply_and_wait")) _ _ (λ _. reply_of-IsCommand arguments)
          (λ _.
            if_ind P (text_eq name (codes "resume_wait")) _ _ (λ _. resume_of-IsCommand arguments)
              (λ _.
                if_ind P (text_eq name (codes "task_status")) _ _
                  (λ _. task_id-IsCommand arguments _ _ (λ t is_id. is_id))
                  (λ _.
                    if_ind P (text_eq name (codes "read_transcript")) _ _
                      (λ _. transcript_of-IsCommand arguments)
                      (λ _.
                        if_ind P (text_eq name (codes "collect_result")) _ _
                          (λ _. collect_of-IsCommand arguments)
                          (λ _.
                            if_ind P (text_eq name (codes "cancel_wait")) _ _
                              (λ _. cancel_wait_of-IsCommand arguments)
                              (λ _.
                                if_ind P (text_eq name (codes "abort_task")) _ _
                                  (λ _. task_id-IsCommand arguments _ _ (λ t is_id. is_id))
                                  (λ _. tt))))))))

-- A tool call that is accepted makes a command within the bounds: its task id has the documented form;
-- a time limit is between 1 and 86400 seconds; a transcript's limit is between 1 and 100, and its
-- cursor is a decimal without leading zeros; a new task's repository is an absolute path, and its
-- slug and server address are not blank, as are no reason of a cancellation and no kind of a reply.
pub call-IsCommand :
    (lower : Text → Text) (server_default name : Text) (value : Value) (request_id : Text)
    {c : Command}
    → call lower server_default name value request_id ≡ ok c
    → IsCommand c
unfolding call
call-IsCommand lower server_default name value request_id =
    IfOk-ok IsCommand (call lower server_default name value request_id) (
      IfOk-skip IsCommand _ _ λ _. IfOk-skip IsCommand (as_object value) _ λ arguments.
        IfOk-skip IsCommand (nonblank (str request_id)) _
          λ request. command_of-IsCommand lower server_default name arguments)
