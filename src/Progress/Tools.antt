-- ===== src/Progress/Tools.antt =====
-- `pending_tools` of progress.py: the tools that run, each once, the one that started first in front.
use opencode_orchestrator.Prelude.{
  ℕ, Bool, not, ◌&&◌, ◌||◌, List, [], ◌∷◌, Option, none, some, ◌==◌, ltb, is_empty, if◌then◌else◌,
}
use opencode_orchestrator.Text.{Text, codes, texts, text_eq, is_one_of, is_blank, strip}
use opencode_orchestrator.Value.{Value, str, arr, obj, Items, nil, cons, Fields, get, to_list}
use opencode_orchestrator.Stream.Messages.{is_falsy}
use opencode_orchestrator.Assessment.{text_lt}
use opencode_orchestrator.Progress.{Timestamp, is_text}

abbrev pub pending_tool_statuses : List Text
pending_tool_statuses =
    texts ("pending" ∷ "running" ∷ "started" ∷ "in_progress" ∷ "in-progress" ∷ [])

-- the projection of a tool's part
pub record PendingTool : Type 0 where
  pub name : Text
  pub part_id : Text
  pub call_id : Text
  pub status : Text
  pub started_at : Text

-- `_nonblank`
unfoldable pub nonblank_text : Option Value → Option Text
nonblank_text (some (str s)) =
    if is_empty s || is_blank s || not (text_eq s (strip s)) then none else some s
nonblank_text _ = none

abbrev pub or_next : Option Value → Option Value → Option Value
or_next a b = if is_falsy a then b else a

unfoldable pub pending_status : Option Value → Option Text
pending_status (some (str s)) = if is_one_of s pending_tool_statuses then some s else none
pending_status _ = none

-- `name is None or part_id is None or call_id is None or started is None`
unfoldable pub tool_of :
    Text → Option Text → Option Text → Option Text → Option Timestamp → Option (PendingTool × ℕ)
tool_of status (some name) (some part_id) (some call_id) (some (started_at, parsed)) = some (
  record {
    name = name;
    part_id = part_id;
    call_id = call_id;
    status = status;
    started_at = started_at;
  },
  parsed,
)
tool_of status _ _ _ _ = none

module _ (parse_timestamp : Value → Option Timestamp) where
  -- `_parse_timestamp(tool_time.get("start"))`; a missing start is null, and no timestamp
  abbrev start_in : Option Value → Option Timestamp
  start_in none = none
  start_in (some v) = parse_timestamp v

  -- `_tool_timestamp`
  unfoldable pub tool_timestamp : Option Value → Option Timestamp
  tool_timestamp (some (obj time)) = start_in (get (codes "start") time)
  tool_timestamp _ = none

  unfoldable pub tool_in : Fields → Fields → Option Text → Option (PendingTool × ℕ)
  tool_in part state none = none
  tool_in part state (some status) =
      tool_of status (nonblank_text (or_next (get (codes "tool") part) (get (codes "name") part)))
        (nonblank_text (
          or_next (get (codes "id") part)
            (or_next (get (codes "partID") part) (get (codes "partId") part))))
        (nonblank_text (or_next (get (codes "callID") part) (get (codes "callId") part)))
        (tool_timestamp (get (codes "time") state))

  unfoldable pub tool_with : Fields → Option Value → Option (PendingTool × ℕ)
  tool_with part (some (obj state)) =
      tool_in part state (pending_status (get (codes "status") state))
  tool_with part _ = none

  -- `_tool_part`
  unfoldable pub pending_tool : Value → Option (PendingTool × ℕ)
  pending_tool (obj part) =
      if is_text (get (codes "type") part) (codes "tool")
      then tool_with part (get (codes "state") part)
      else none
  pending_tool _ = none

-- `unique[key] = value`: a key keeps its place
unfoldable pub put_unique : PendingTool × ℕ → List (PendingTool × ℕ) → List (PendingTool × ℕ)
put_unique t [] = t ∷ []
put_unique t (u ∷ us) =
    if text_eq u.0.part_id t.0.part_id && text_eq u.0.call_id t.0.call_id
    then t ∷ us
    else u ∷ put_unique t us

abbrev pub put_some : Option (PendingTool × ℕ) → List (PendingTool × ℕ) → List (PendingTool × ℕ)
put_some none unique = unique
put_some (some t) unique = put_unique t unique

-- the order of the key, the instant and the part's id
unfoldable pub tool_lt : PendingTool × ℕ → PendingTool × ℕ → Bool
tool_lt (t, a) (u, b) = ltb a b || (a == b && text_lt t.part_id u.part_id)

-- `sorted`: a stable insertion
unfoldable pub insert_tool : PendingTool × ℕ → List (PendingTool × ℕ) → List (PendingTool × ℕ)
insert_tool t [] = t ∷ []
insert_tool t (u ∷ us) = if tool_lt u t then u ∷ insert_tool t us else t ∷ u ∷ us

unfoldable pub sort_tools : List (PendingTool × ℕ) → List (PendingTool × ℕ)
sort_tools [] = []
sort_tools (t ∷ ts) = insert_tool t (sort_tools ts)

abbrev pub tools_of : List (PendingTool × ℕ) → List PendingTool
tools_of [] = []
tools_of (t ∷ ts) = t.0 ∷ tools_of ts

module _ (parse_timestamp : Value → Option Timestamp) where
  unfoldable pub collect_parts : Items → List (PendingTool × ℕ) → List (PendingTool × ℕ)
  collect_parts nil unique = unique
  collect_parts (cons part parts) unique =
      collect_parts parts (put_some (pending_tool parse_timestamp part) unique)

  unfoldable pub collect_list : Option Value → List (PendingTool × ℕ) → List (PendingTool × ℕ)
  collect_list (some (arr parts)) unique = collect_parts parts unique
  collect_list _ unique = unique

  unfoldable pub collect_message : Value → List (PendingTool × ℕ) → List (PendingTool × ℕ)
  collect_message (obj message) unique = collect_list (get (codes "parts") message) unique
  collect_message _ unique = unique

  unfoldable pub collect_messages : List Value → List (PendingTool × ℕ) → List (PendingTool × ℕ)
  collect_messages [] unique = unique
  collect_messages (message ∷ messages) unique =
      collect_messages messages (collect_message message unique)

  unfoldable pub pending_tools : Value → List PendingTool
  pending_tools (arr messages) = tools_of (sort_tools (collect_messages (to_list messages) []))
  pending_tools _ = []
