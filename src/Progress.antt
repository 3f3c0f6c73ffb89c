-- ===== src/Progress.antt =====
-- src/opencode_orchestrator/progress.py: which events are progress, when the last turn of a session is
-- finished, and when its messages last made progress. An instant is a number of a small unit of time
-- after some start; `parse_timestamp` is `_parse_timestamp` as a parameter, which reads dates by the
-- standard library, and gives the text and the instant. Tools has `pending_tools`.
pub mod Tools
pub mod Turns
pub mod Pending
pub mod Unique
pub mod Newest
pub mod Run
pub mod Examples
use Prim.Native.Nat.{◌/◌}
use mathlib.Core.List.{reverse}
use opencode_orchestrator.Prelude.{
  ℕ, zero, suc, ◌+◌, ◌-◌, Bool, true, false, not, ◌&&◌, ◌||◌, List, [], ◌∷◌, ◌++◌, Option, none,
  some, ◌==◌, leb, ltb, any, if◌then◌else◌,
}
use opencode_orchestrator.Text.{Text, codes, texts, text_eq, is_one_of, starts_with, is_blank}
use opencode_orchestrator.Value.{
  Value, null, str, arr, obj, Items, nil, cons, Fields, end, get, to_list,
}
use opencode_orchestrator.Stream.Messages.{is_falsy}

abbrev transport_event_types : List Text
transport_event_types = texts ("server.connected" ∷ "server.heartbeat" ∷ [])

abbrev meaningful_event_types : List Text
meaningful_event_types =
    texts ("message.updated" ∷ "session.diff" ∷ "session.idle" ∷ "session.error" ∷ [])

abbrev meaningful_event_prefixes : List Text
meaningful_event_prefixes =
    texts ("message.part." ∷ "permission." ∷ "question." ∷ "tool." ∷ "file." ∷ "session.diff." ∷ [])

unfoldable pub event_type_of : Option Value → Option Text
event_type_of (some (str s)) = if is_blank s then none else some s
event_type_of _ = none

-- `properties.get("sessionID") == session_id`, where the properties are a `dict`
abbrev pub is_text : Option Value → Text → Bool
is_text (some (str s)) t = text_eq s t
is_text _ t = false

unfoldable pub is_of_session : Option Value → Text → Bool
is_of_session (some (obj properties)) session_id =
    is_text (get (codes "sessionID") properties) session_id
is_of_session _ session_id = false

unfoldable pub is_meaningful_type : Text → Bool
is_meaningful_type t =
    is_one_of t meaningful_event_types
    || any (λ prefix. starts_with prefix t) meaningful_event_prefixes

unfoldable pub is_meaningful_typed : Option Text → Fields → Text → Bool
is_meaningful_typed none event session_id = false
is_meaningful_typed (some t) event session_id =
    not (is_one_of t transport_event_types)
    && (not (is_blank session_id)
        && (is_of_session (get (codes "properties") event) session_id && is_meaningful_type t))

-- `is_meaningful_progress`
unfoldable pub is_meaningful_progress : Value → Text → Bool
is_meaningful_progress (obj event) session_id =
    is_meaningful_typed (event_type_of (get (codes "type") event)) event session_id
is_meaningful_progress _ session_id = false

-- `_message_info`, and `info` in `_message_timestamps`
unfoldable pub message_info : Fields → Option Value → Fields
message_info message (some (obj info)) = info
message_info message _ = message

abbrev completed_in : Option Value → Option Value
completed_in (some (obj time)) = get (codes "completed") time
completed_in _ = none

-- `completed`, as a test
unfoldable pub is_completed : Fields → Bool
is_completed info =
    not (is_falsy (completed_in (get (codes "time") info)))
    || (not (is_falsy (get (codes "completedAt") info))
        || not (is_falsy (get (codes "completed_at") info)))

unfoldable pub is_step_finish : Value → Bool
is_step_finish (obj part) = is_text (get (codes "type") part) (codes "step-finish")
is_step_finish _ = false

unfoldable pub has_step_finish : Option Value → Bool
has_step_finish (some (arr parts)) = any is_step_finish (to_list parts)
has_step_finish _ = false

-- `isinstance(parts, list) and parts`
unfoldable pub has_parts : Option Value → Bool
has_parts (some (arr (cons v vs))) = true
has_parts _ = false

-- what one message says of the turn: `none` where an earlier one is asked
unfoldable pub turn_of : Fields → Fields → Option Bool
turn_of info message =
    if not (is_text (get (codes "role") info) (codes "assistant"))
    then some false
    else if is_completed info
    then some (has_step_finish (get (codes "parts") message))
    else if has_parts (get (codes "parts") message)
    then some false
    else none

-- the info of what is no `dict` is empty, and has no role
unfoldable pub message_turn : Value → Option Bool
message_turn (obj message) = turn_of (message_info message (get (codes "info") message)) message
message_turn _ = some false

abbrev pub turn_or : Option Bool → Bool → Bool
turn_or none rest = rest
turn_or (some b) rest = b

-- the messages, the last one first
unfoldable pub finished_from : List Value → Bool
finished_from [] = false
finished_from (message ∷ messages) =
    let rest = finished_from messages in turn_or (message_turn message) rest

unfoldable pub last_turn_finished : Value → Bool
last_turn_finished (arr messages) = finished_from (reverse (to_list messages))
last_turn_finished _ = false

-- a timestamp: its text, and its instant
abbrev pub Timestamp : Type 0
Timestamp = Text × ℕ

module _ (parse_timestamp : Value → Option Timestamp) where
  abbrev candidate : Option Timestamp → List Timestamp → List Timestamp
  candidate none rest = rest
  candidate (some t) rest = t ∷ rest

  abbrev parsed : Option Value → Option Timestamp
  parsed none = none
  parsed (some v) = parse_timestamp v

  -- the keys of a `dict`, in the order in which they are asked for
  unfoldable pub stamps_in : List Text → Fields → List Timestamp
  stamps_in [] fs = []
  stamps_in (key ∷ keys) fs = let rest = stamps_in keys fs in candidate (parsed (get key fs)) rest

  unfoldable pub time_stamps : Option Value → List Text → List Timestamp
  time_stamps (some (obj time)) keys = stamps_in keys time
  time_stamps _ keys = []

  unfoldable pub state_stamps : Option Value → List Timestamp
  state_stamps (some (obj state)) =
      time_stamps (get (codes "time") state) (texts ("start" ∷ "end" ∷ []))
  state_stamps _ = []

  unfoldable pub part_stamps : Value → List Timestamp
  part_stamps (obj part) =
      if is_text (get (codes "type") part) (codes "tool")
      then state_stamps (get (codes "state") part)
      else []
  part_stamps _ = []

  unfoldable pub parts_stamps : Items → List Timestamp
  parts_stamps nil = []
  parts_stamps (cons part parts) = part_stamps part ++ parts_stamps parts

  unfoldable pub list_stamps : Option Value → List Timestamp
  list_stamps (some (arr parts)) = parts_stamps parts
  list_stamps _ = []

  abbrev info_keys : List Text
  info_keys = texts (
      "created_at" ∷ "createdAt" ∷ "updated_at" ∷ "updatedAt" ∷ "completed_at" ∷ "completedAt" ∷ [])

  -- `_message_timestamps`
  unfoldable pub message_timestamps : Value → List Timestamp
  message_timestamps (obj message) =
      let info = message_info message (get (codes "info") message) in
      stamps_in info_keys info
      ++ (time_stamps (get (codes "time") info) (texts ("created" ∷ "updated" ∷ "completed" ∷ []))
          ++ list_stamps (get (codes "parts") message))
  message_timestamps _ = []

-- `latest`: the instant, the index of the message, and the text
pub record Latest : Type 0 where
  pub instant : ℕ
  pub index : ℕ
  pub text : Text

-- `latest is None or candidate[:2] >= latest[:2]`
unfoldable pub replaces : ℕ → ℕ → Option Latest → Bool
replaces instant index none = true
replaces instant index (some l) =
    ltb l.instant instant || (l.instant == instant && leb l.index index)

unfoldable pub take_stamp : ℕ → ℕ → Option Latest → Timestamp → Option Latest
take_stamp allowed index latest (text, instant) =
    if ltb allowed instant
    then latest
    else if replaces instant index latest
    then some (record { instant = instant; index = index; text = text })
    else latest

unfoldable pub take_stamps : ℕ → ℕ → Option Latest → List Timestamp → Option Latest
take_stamps allowed index latest [] = latest
take_stamps allowed index latest (t ∷ ts) =
    take_stamps allowed index (take_stamp allowed index latest t) ts

unfoldable pub latest_from :
    (Value → Option Timestamp) → ℕ → ℕ → Option Latest → List Value → Option Latest
latest_from parse_timestamp allowed index latest [] = latest
latest_from parse_timestamp allowed index latest (message ∷ messages) =
    latest_from parse_timestamp allowed (suc index)
      (take_stamps allowed index latest (message_timestamps parse_timestamp message)) messages

abbrev pub text_of : Option Latest → Option Text
text_of none = none
text_of (some l) = some l.text

-- `latest_message_progress_at`, for an instant that was observed, and a skew of 300 seconds
unfoldable pub latest_message_progress_at : (Value → Option Timestamp) → ℕ → ℕ → Value → Option Text
latest_message_progress_at parse_timestamp observation skew (arr messages) =
    text_of (latest_from parse_timestamp (observation + skew) 0 none (to_list messages))
latest_message_progress_at parse_timestamp observation skew _ = none

-- `idle_seconds`, for texts that `_parse_iso` reads: the instants count microseconds
unfoldable pub idle_seconds : (Text → Option ℕ) → Text → Text → Option ℕ
idle_seconds parse_iso last_progress_at now = elapsed (parse_iso now) (parse_iso last_progress_at)
  where
    elapsed : Option ℕ → Option ℕ → Option ℕ
    elapsed (some later) (some earlier) = some ((later - earlier) / 1000000)
    elapsed _ _ = none
