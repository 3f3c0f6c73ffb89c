-- ===== src/Stream/Messages.antt =====
-- `progress_message` of event_stream.py, for an event that is a `dict`.
use opencode_orchestrator.Prelude.{
  Bool, true, false, List, [], ◌∷◌, ◌++◌, Option, none, some, ◌||◌, ◌==◌, is_empty, if◌then◌else◌,
}
use opencode_orchestrator.Prelude.Result.{Result, ok, err, ◌>>=◌}
use opencode_orchestrator.Text.{Text, codes, texts, text_eq, is_one_of, starts_with}
use opencode_orchestrator.Value.{
  Value, pos, null, bool, int, float, str, arr, obj, nil, Fields, end, get,
}
use opencode_orchestrator.Stream.Sanitize.{StreamError, type_text}

abbrev pub visible_progress_tool_names : List Text
visible_progress_tool_names = texts (
    "apply_patch" ∷ "bash" ∷ "edit" ∷ "glob" ∷ "grep" ∷ "list" ∷ "read" ∷ "shell" ∷ "task"
    ∷ "web_fetch" ∷ "webfetch" ∷ "write" ∷ [])

unfoldable pub is_falsy : Option Value → Bool
is_falsy none = true
is_falsy (some null) = true
is_falsy (some (bool false)) = true
is_falsy (some (int (pos n))) = n == 0
is_falsy (some (float x)) = x == 0 || x == 9223372036854775808
is_falsy (some (str s)) = is_empty s
is_falsy (some (arr nil)) = true
is_falsy (some (obj end)) = true
is_falsy (some _) = false

-- `part.get("tool") or part.get("name")`
abbrev pub either_name : Option Value → Option Value → Option Value
either_name tool name = if is_falsy tool then name else tool

-- `"a tool"` for a name that is no visible tool's
abbrev pub visible_name : Option Text → Text
visible_name none = codes "a tool"
visible_name (some name) =
    if is_one_of name visible_progress_tool_names then name else codes "a tool"

unfoldable pub tool_name : Fields → Result StreamError Text
tool_name part = do
  name ← type_text (either_name (get (codes "tool") part) (get (codes "name") part))
  ok (visible_name name)

unfoldable pub tool_status : Option Value → Result StreamError (Option Text)
tool_status (some (obj state)) = type_text (get (codes "status") state)
tool_status _ = ok none

unfoldable pub status_message : Option Text → Text → Text
status_message none name = codes "OpenCode is running " ++ name
status_message (some status) name =
    if is_one_of status (texts ("completed" ∷ "done" ∷ "success" ∷ []))
    then codes "OpenCode completed " ++ name
    else if is_one_of status (texts ("error" ∷ "failed" ∷ []))
    then codes "OpenCode reported a failure in " ++ name
    else codes "OpenCode is running " ++ name

unfoldable pub tool_message : Fields → Result StreamError Text
tool_message part = do
  name ← tool_name part
  status ← tool_status (get (codes "state") part)
  ok (status_message status name)

-- `part.get("type") == "tool"`
abbrev pub is_tool : Option Value → Bool
is_tool (some (str s)) = text_eq s (codes "tool")
is_tool _ = false

unfoldable pub part_message : Option Value → Result StreamError Text
part_message (some (obj part)) =
    if is_tool (get (codes "type") part)
    then tool_message part
    else ok (codes "OpenCode is analyzing or editing")
part_message _ = ok (codes "OpenCode is analyzing or editing")

unfoldable pub updated_message : Option Value → Result StreamError Text
updated_message (some (obj properties)) = part_message (get (codes "part") properties)
updated_message _ = ok (codes "OpenCode is analyzing or editing")

-- the messages that depend on the type alone, from `session.diff` on
unfoldable pub late_message : Text → Option Text
late_message t =
    if text_eq t (codes "session.diff") || starts_with (codes "file.") t
    then some (codes "OpenCode updated the worktree")
    else if is_one_of t (texts ("permission.asked" ∷ "permission.v2.asked" ∷ []))
    then some (codes "OpenCode is waiting for permission")
    else if is_one_of t (texts ("question.asked" ∷ "question.v2.asked" ∷ []))
    then some (codes "OpenCode is waiting for an answer")
    else if text_eq t (codes "session.idle")
    then some (codes "OpenCode finished the current execution")
    else if text_eq t (codes "session.error")
    then some (codes "OpenCode execution failed")
    else none

abbrev pub some_message : Result StreamError Text → Result StreamError (Option Text)
some_message (ok m) = ok (some m)
some_message (err e) = err e

unfoldable pub typed_message : Fields → Option Text → Result StreamError (Option Text)
typed_message event none = ok none
typed_message event (some t) =
    if is_one_of t (texts ("server.heartbeat" ∷ "catalog.updated" ∷ "reference.updated" ∷ []))
    then ok none
    else if text_eq t (codes "server.connected")
    then ok (some (codes "OpenCode connection established"))
    else if is_one_of t (texts ("message.part.delta" ∷ "message.updated" ∷ []))
    then ok (some (codes "OpenCode is analyzing or editing"))
    else if text_eq t (codes "message.part.updated")
    then some_message (updated_message (get (codes "properties") event))
    else ok (late_message t)

unfoldable pub progress_message : Fields → Result StreamError (Option Text)
progress_message event = do
  event_type ← type_text (get (codes "type") event)
  typed_message event event_type
