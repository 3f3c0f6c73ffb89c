-- ===== src/Collector.antt =====
-- src/opencode_orchestrator/collector.py: what is collected of a session's messages. `shown` is Python's
-- `str` on a value that is no text. What calls git or writes a file is left out.
pub mod Public
pub mod Examples
use opencode_orchestrator.Prelude.{
  ℕ, zero, suc, ◌+◌, Bool, true, false, not, ◌&&◌, ◌||◌, List, [], ◌∷◌, Option, none, some, ltb,
  length, is_empty, if◌then◌else◌,
}
use mathlib.Core.List.{reverse}
use opencode_orchestrator.Prelude.Result.{Result, ok, err, ◌>>=◌}
use opencode_orchestrator.Text.{Text, codes, texts, text_eq, is_one_of, starts_with, is_in, join}
use opencode_orchestrator.Value.{
  Value, pos, null, int, str, arr, obj, Items, nil, cons, Fields, end, field, get,
}
use opencode_orchestrator.Stream.Messages.{is_falsy}

pub data CollectorError : Type 0 where
  not_dict not_iterable : CollectorError

abbrev private_part_types : List Text
private_part_types = texts ("reasoning" ∷ "thinking" ∷ "analysis" ∷ [])

-- `a or b`
abbrev pub or_next : Option Value → Option Value → Option Value
or_next a b = if is_falsy a then b else a

-- `x if isinstance(x, dict) else {}`
unfoldable pub dict_or_empty : Option Value → Fields
dict_or_empty (some (obj fs)) = fs
dict_or_empty _ = end

abbrev is_text : Option Value → Text → Bool
is_text (some (str s)) t = text_eq s t
is_text _ t = false

-- the field of a `dict`, where the value is neither missing nor null
abbrev pub present_field : Text → Option Value → Fields → Fields
present_field key none rest = rest
present_field key (some null) rest = rest
present_field key (some v) rest = field key v rest

abbrev or_value : Option Value → Option Value → Option Value
or_value none default = default
or_value (some v) default = some v

-- `_tool_part`
unfoldable pub output_field : Bool → Fields → Fields → Fields
output_field false part state = end
output_field true part state =
    present_field (codes "output")
      (or_value (get (codes "output") state)
        (or_value (get (codes "output") part) (get (codes "result") part)))
      end

unfoldable pub tool_part : Fields → Bool → Value
tool_part part include_tool_output =
    let state = dict_or_empty (get (codes "state") part) in
    obj (
      field (codes "type") (str (codes "tool")) (
        present_field (codes "name") (or_next (get (codes "tool") part) (get (codes "name") part)) (
          present_field (codes "status")
            (or_next (get (codes "status") state) (get (codes "status") part))
            (output_field include_tool_output part state))))

module _ (shown : Value → Text) where
  -- `str(value)`
  unfoldable pub text_of : Value → Text
  text_of (str s) = s
  text_of v = shown v

  -- `str(part.get("type", "unknown"))`
  unfoldable pub part_type : Option Value → Text
  part_type none = codes "unknown"
  part_type (some v) = text_of v

  unfoldable pub text_part : Option Value → Option Value
  text_part none = none
  text_part (some null) = none
  text_part (some v) =
      some (
        obj
          (field (codes "type") (str (codes "text")) (field (codes "text") (str (text_of v)) end)))

  unfoldable pub compact_part : Text → Fields → Value
  compact_part type_ part = obj (
      field (codes "type") (str type_) (
        present_field (codes "name") (get (codes "name") part)
          (present_field (codes "status") (get (codes "status") part) end)))

  unfoldable pub typed_part : Text → Fields → Bool → Option Value
  typed_part type_ part include_tool_output =
      if is_one_of type_ private_part_types || is_in (codes "reasoning") type_
      then none
      else if text_eq type_ (codes "text")
      then text_part (get (codes "text") part)
      else if starts_with (codes "tool") type_ || text_eq type_ (codes "tool")
      then some (tool_part part include_tool_output)
      else some (compact_part type_ part)

  -- one round of the loop over the parts
  unfoldable pub normalize_part : Value → Bool → Option Value
  normalize_part (obj part) include_tool_output =
      typed_part (part_type (get (codes "type") part)) part include_tool_output
  normalize_part _ include_tool_output = none

  abbrev push_part : Option Value → Items → Items
  push_part none parts = parts
  push_part (some v) parts = cons v parts

  unfoldable pub normalize_parts : Items → Bool → Items
  normalize_parts nil include_tool_output = nil
  normalize_parts (cons part parts) include_tool_output =
      push_part (normalize_part part include_tool_output)
        (normalize_parts parts include_tool_output)

  -- `message.get("parts") or []`: of a text or a `dict`, each item is a text, and no part
  unfoldable pub parts_of : Option Value → Result CollectorError Items
  parts_of (some (arr parts)) = ok parts
  parts_of (some (str s)) = ok nil
  parts_of (some (obj fs)) = ok nil
  parts_of o = if is_falsy o then ok nil else err not_iterable

  unfoldable pub created_at : Fields → Option Value
  created_at info =
      timestamp (or_next (get (codes "created_at") info) (get (codes "createdAt") info))
    where
      of_time : Option Value → Option Value
      of_time (some (obj time)) = get (codes "created") time
      of_time _ = none

      timestamp : Option Value → Option Value
      timestamp none = of_time (get (codes "time") info)
      timestamp (some null) = of_time (get (codes "time") info)
      timestamp (some v) = some v

  abbrev or_null : Option Value → Value
  or_null none = null
  or_null (some v) = v

  unfoldable pub role_of : Fields → Fields → Value
  role_of info message = or_null (
      or_next (get (codes "role") info)
        (or_next (get (codes "role") message) (some (str (codes "unknown")))))

  unfoldable pub message_value : ℕ → Fields → Items → Value
  message_value index message parts =
      let info = dict_or_empty (get (codes "info") message) in
      obj (
        field (codes "index") (int (pos index)) (
          field (codes "role") (role_of info message) (
            field (codes "created_at") (or_null (created_at info))
              (field (codes "parts") (arr parts) end))))

  unfoldable pub normalize_message : ℕ → Value → Bool → Result CollectorError Value
  normalize_message index (obj message) include_tool_output = do
    parts ← parts_of (get (codes "parts") message)
    ok (message_value index message (normalize_parts parts include_tool_output))
  normalize_message index _ include_tool_output = err not_dict

  -- `normalize_messages`, from an index on
  unfoldable pub normalize_from : ℕ → List Value → Bool → Result CollectorError (List Value)
  normalize_from index [] include_tool_output = ok []
  normalize_from index (message ∷ messages) include_tool_output = do
    first ← normalize_message index message include_tool_output
    rest ← normalize_from (suc index) messages include_tool_output
    ok (first ∷ rest)

  unfoldable pub normalize_messages : List Value → Bool → Result CollectorError (List Value)
  normalize_messages messages include_tool_output = normalize_from 0 messages include_tool_output

  -- the texts of a message
  unfoldable pub assistant_texts : Items → Result CollectorError (List Text)
  assistant_texts nil = ok []
  assistant_texts (cons (obj part) parts) = do
    rest ← assistant_texts parts
    ok (
        if is_text (get (codes "type") part) (codes "text")
          && not (is_falsy (get (codes "text") part))
        then text_of (or_null (get (codes "text") part)) ∷ rest
        else rest)
  assistant_texts (cons _ parts) = err not_dict

  -- what `for part in message.get("parts") or []` goes through, where each is asked for its fields
  unfoldable pub asked_parts : Option Value → Result CollectorError Items
  asked_parts (some (arr parts)) = ok parts
  asked_parts o = if is_falsy o then ok nil else err not_dict

  -- `(message.get("info") or {}).get("role")`
  unfoldable pub info_role : Option Value → Result CollectorError (Option Value)
  info_role (some (obj info)) = ok (get (codes "role") info)
  info_role o = if is_falsy o then ok none else err not_dict

  abbrev texts_if : Bool → Fields → Result CollectorError (List Text)
  texts_if false message = ok []
  texts_if true message = do
    parts ← asked_parts (get (codes "parts") message)
    assistant_texts parts

  unfoldable pub message_texts : Value → Result CollectorError (List Text)
  message_texts (obj message) = do
    role ← info_role (get (codes "info") message)
    texts_if (is_text role (codes "assistant")) message
  message_texts _ = err not_dict

  -- the messages, the last one first
  unfoldable pub first_texts : List Value → Result CollectorError Text
  first_texts [] = ok []
  first_texts (message ∷ messages) =
      let rest = first_texts messages in
      message_texts message >>= λ found. if is_empty found then rest else ok (join (10 ∷ []) found)

  unfoldable pub last_assistant_text : List Value → Result CollectorError Text
  last_assistant_text messages = first_texts (reverse messages)

-- `text[:limit]`
unfoldable pub take_text : ℕ → Text → Text
take_text zero s = []
take_text (suc n) [] = []
take_text (suc n) (c ∷ s) = c ∷ take_text n s

-- `truncate_text`, for a limit that is not negative
unfoldable pub truncate_text : Text → ℕ → Text × Bool
truncate_text text limit = (take_text limit text, ltb limit (length text))
