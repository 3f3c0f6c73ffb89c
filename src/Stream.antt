-- ===== src/Stream.antt =====
-- src/opencode_orchestrator/event_stream.py: `parse_sse_lines`, on lines that are decoded. A generator is
-- the stream of what it yields. `loads` is `json.loads`, `none` where it raises. Sanitize has what
-- may be logged of an event, Messages the progress messages, and Session `wait_for_session`.
pub mod Sanitize
pub mod Messages
pub mod Session
pub mod Frames
pub mod Shape
pub mod Visible
pub mod Bounded
pub mod Outcomes
pub mod Run
pub mod Examples
use opencode_orchestrator.Prelude.{
  ℕ, Bool, true, false, ◌&&◌, ◌||◌, List, [], ◌∷◌, ◌++◌, Option, none, some, ◌==◌, is_empty,
  if◌then◌else◌,
}
use opencode_orchestrator.Text.{Text, codes, text_eq, starts_with, join}
use opencode_orchestrator.Value.{Value}

pub record SseEvent : Type 0 where
  pub event : Option Text
  pub payload : Value

pub data SseStream : Type 0 where
  finished : SseStream
  raised : SseStream
  next : SseEvent → SseStream → SseStream

-- `line.rstrip("\r\n")`
unfoldable pub strip_newlines : Text → Text
strip_newlines [] = []
strip_newlines (c ∷ s) =
    let rest = strip_newlines s in if (c == 10 || c == 13) && is_empty rest then [] else c ∷ rest

-- `line.partition(":")`: the field, and what follows the separator, if there is one
unfoldable pub partition : Text → Text × Option Text
partition [] = ([], none)
partition (c ∷ s) =
    let (name, value) = partition s in if c == b':' then ([], some s) else (c ∷ name, value)

-- the value of a field, without one leading space
unfoldable pub field_value : Option Text → Text
field_value none = []
field_value (some []) = []
field_value (some (c ∷ s)) = if c == b' ' then s else c ∷ s

-- `event_name` and `data`
pub record Partial : Type 0 where
  pub event_name : Option Text
  pub data_lines : List Text

unfoldable pub no_event : Partial
no_event = record { event_name = none; data_lines = [] }

unfoldable pub take_field : Partial → Text → Text → Partial
take_field p name value =
    if text_eq name (codes "event")
    then record p { event_name = some value }
    else if text_eq name (codes "data")
    then record p { data_lines = p.data_lines ++ (value ∷ []) }
    else p

-- a line that is not empty
unfoldable pub read_line : Partial → Text → Partial
read_line p line =
    if starts_with (codes ":") line
    then p
    else let (name, value) = partition line in take_field p name (field_value value)

unfoldable pub yield_event : Option Text → Option Value → SseStream → SseStream
yield_event name none rest = raised
yield_event name (some payload) rest = next (record { event = name; payload = payload }) rest

-- `build`, and the `yield` of what it builds
unfoldable pub build : (Text → Option Value) → Option Text → List Text → SseStream → SseStream
build loads name [] rest = rest
build loads name (line ∷ lines) rest = yield_event name (loads (join (10 ∷ []) (line ∷ lines))) rest

unfoldable pub parse_from : (Text → Option Value) → Partial → List Text → SseStream
parse_from loads p [] = build loads p.event_name p.data_lines finished
parse_from loads p (raw ∷ lines) = elim (is_empty (strip_newlines raw)) [
  | true ↦ build loads p.event_name p.data_lines (parse_from loads no_event lines)
  | false ↦ parse_from loads (read_line p (strip_newlines raw)) lines
]

unfoldable pub parse_sse_lines : (Text → Option Value) → List Text → SseStream
parse_sse_lines loads lines = parse_from loads no_event lines
