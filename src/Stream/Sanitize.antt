-- ===== src/Stream/Sanitize.antt =====
-- What event_stream.py lets through of an event: `_sanitized_event`, for an event whose type is the
-- given text, and `sanitize_event_for_log`. `event_kind` is the test that the type is in
-- `TERMINAL_OR_INPUT_TYPES`, with the kind that it has there.
use opencode_orchestrator.Prelude.{
  ℕ, Bool, true, false, ◌&&◌, ◌||◌, List, [], ◌∷◌, Option, none, some, ◌==◌, leb, length, is_empty,
  all, if◌then◌else◌,
}
use opencode_orchestrator.Prelude.Result.{Result, ok, err, ◌>>=◌}
use opencode_orchestrator.Text.{Text, codes, texts, text_eq, is_one_of, starts_with, is_in, look_up}
use opencode_orchestrator.Value.{
  Value, pos, negsuc, null, bool, int, float, str, arr, obj, Items, nil, cons, Fields, end, field,
  get, put,
}

pub data StreamError : Type 0 where
  not_object unhashable bad_properties bad_json : StreamError

abbrev terminal_kinds : List (Text × Text)
terminal_kinds =
    (codes "session.idle", codes "idle")
    ∷ (codes "session.error", codes "error")
    ∷ (codes "permission.asked", codes "permission")
    ∷ (codes "permission.v2.asked", codes "permission")
    ∷ (codes "question.asked", codes "question")
    ∷ (codes "question.v2.asked", codes "question")
    ∷ []

unfoldable pub kind_of : Text → Option Text
kind_of event_type = look_up event_type terminal_kinds

-- the type of an event, if it is a text; a list or a `dict` cannot be looked up
unfoldable pub type_text : Option Value → Result StreamError (Option Text)
type_text (some (str s)) = ok (some s)
type_text (some (arr vs)) = err unhashable
type_text (some (obj fs)) = err unhashable
type_text _ = ok none

unfoldable pub safe_string : Option Value → Option Text
safe_string (some (str s)) = some s
safe_string _ = none

abbrev between : ℕ → ℕ → ℕ → Bool
between a b c = leb a c && leb c b

-- `[A-Za-z0-9_.:-]`
unfoldable pub is_token_char : ℕ → Bool
is_token_char c =
    between b'A' b'Z' c
    || between b'a' b'z' c
    || between b'0' b'9' c
    || c == b'_'
    || c == b'.'
    || c == b':'
    || c == b'-'

-- `[A-Za-z0-9/{}_.:-]`
unfoldable pub is_path_char : ℕ → Bool
is_path_char c = is_token_char c || c == b'/' || c == b'{' || c == b'}'

unfoldable pub safe_error_token : Option Value → Option Text
safe_error_token (some (str s)) =
    if between 1 128 (length s) && all is_token_char s then some s else none
safe_error_token _ = none

unfoldable pub safe_error_path : Option Value → Option Text
safe_error_path (some (str s)) =
    if starts_with (codes "/") s && leb (length s) 256 && all is_path_char s then some s else none
safe_error_path _ = none

unfoldable pub all_text : Items → Bool
all_text nil = true
all_text (cons (str s) vs) = all_text vs
all_text (cons _ vs) = false

unfoldable pub safe_string_list : Option Value → Option Items
safe_string_list (some (arr vs)) = if all_text vs then some vs else none
safe_string_list _ = none

abbrev pub put_text : Text → Option Text → Fields → Fields
put_text key none fs = fs
put_text key (some s) fs = put key (str s) fs

unfoldable pub option_with : Option Text → Option Text → Option Value
option_with none description = none
option_with (some label) description =
    some (obj (put_text (codes "description") description (field (codes "label") (str label) end)))

unfoldable pub safe_option : Value → Option Value
safe_option (obj fs) =
    option_with (safe_string (get (codes "label") fs)) (safe_string (get (codes "description") fs))
safe_option _ = none

abbrev pub push_item : Option Value → Items → Items
push_item none vs = vs
push_item (some v) vs = cons v vs

unfoldable pub safe_options : Items → Items
safe_options nil = nil
safe_options (cons v vs) = push_item (safe_option v) (safe_options vs)

abbrev pub put_options : Option Value → Fields → Fields
put_options (some (arr vs)) fs = put (codes "options") (arr (safe_options vs)) fs
put_options _ fs = fs

unfoldable pub question_with : Option Text → Option Text → Option Value → Option Value
question_with (some header) (some question) options = some (
    obj (
      put_options options
        (field (codes "header") (str header) (field (codes "question") (str question) end))))
question_with _ _ options = none

unfoldable pub safe_question : Value → Option Value
safe_question (obj fs) =
    question_with (safe_string (get (codes "header") fs)) (safe_string (get (codes "question") fs))
      (get (codes "options") fs)
safe_question _ = none

unfoldable pub safe_questions_of : Items → Items
safe_questions_of nil = nil
safe_questions_of (cons v vs) = push_item (safe_question v) (safe_questions_of vs)

unfoldable pub safe_questions : Option Value → Items
safe_questions (some (arr vs)) = safe_questions_of vs
safe_questions _ = nil

-- `event.get("properties") or {}`
unfoldable pub properties_of : Option Value → Value
properties_of none = obj end
properties_of (some null) = obj end
properties_of (some (bool b)) = if b then bool b else obj end
properties_of (some (int (pos n))) = if n == 0 then obj end else int (pos n)
properties_of (some (int (negsuc n))) = int (negsuc n)
properties_of (some (float x)) = if x == 0 || x == 9223372036854775808 then obj end else float x
properties_of (some (str s)) = if is_empty s then obj end else str s
properties_of (some (arr nil)) = obj end
properties_of (some (arr (cons v vs))) = arr (cons v vs)
properties_of (some (obj fs)) = obj fs

abbrev pub put_status : Option Value → Fields → Fields
put_status (some (int (pos n))) fs =
    if between 100 599 n then put (codes "status") (int (pos n)) fs else fs
put_status _ fs = fs

-- `visible_error`
unfoldable pub visible_error : Fields → Fields
visible_error error = put (codes "message") (str (codes "OpenCode session failed")) (
    put_text (codes "path") (safe_error_path (get (codes "path") error)) (
      put_status (get (codes "status") error) (
        put_text (codes "code") (safe_error_token (get (codes "code") error))
          (put_text (codes "name") (safe_error_token (get (codes "name") error)) end))))

unfoldable pub visible_ids : Fields → Fields
visible_ids properties =
    put_text (codes "permission") (safe_string (get (codes "permission") properties)) (
      put_text (codes "action") (safe_string (get (codes "action") properties)) (
        put_text (codes "sessionID") (safe_string (get (codes "sessionID") properties))
          (put_text (codes "id") (safe_string (get (codes "id") properties)) end)))

abbrev pub or_value : Option Value → Option Value → Option Value
or_value none default = default
or_value (some v) default = some v

abbrev pub put_resources : Option Items → Fields → Fields
put_resources none fs = fs
put_resources (some vs) fs = put (codes "resources") (arr vs) fs

abbrev pub put_always : Option Value → Fields → Fields
put_always (some (bool b)) fs = put (codes "always") (bool b) fs
put_always _ fs = fs

unfoldable pub visible_body : Text → Fields → Fields → Fields
visible_body event_type properties visible =
    if is_one_of event_type (texts ("permission.asked" ∷ "permission.v2.asked" ∷ []))
    then put_always (get (codes "always") properties) (
        put_resources
          (safe_string_list
            (or_value (get (codes "resources") properties) (get (codes "patterns") properties)))
          visible)
    else if is_one_of event_type (texts ("question.asked" ∷ "question.v2.asked" ∷ []))
    then put (codes "questions") (arr (safe_questions (get (codes "questions") properties))) visible
    else visible

abbrev pub put_error : Text → Option Value → Fields → Fields
put_error event_type (some (obj error)) visible =
    if text_eq event_type (codes "session.error")
    then put (codes "error") (obj (visible_error error)) visible
    else visible
put_error event_type _ visible = visible

unfoldable pub visible_properties : Text → Value → Fields
visible_properties event_type (obj properties) =
    put_error event_type (get (codes "error") properties)
      (visible_body event_type properties (visible_ids properties))
visible_properties event_type _ = end

unfoldable pub sanitized_event : Text → Fields → Fields
sanitized_event event_type event = field (codes "type") (str event_type) (
    field (codes "properties")
      (obj (visible_properties event_type (properties_of (get (codes "properties") event)))) end)

unfoldable pub has_text : Text → Items → Bool
has_text s nil = false
has_text s (cons (str t) vs) = text_eq s t || has_text s vs
has_text s (cons _ vs) = has_text s vs

abbrev session_field : Option Value → Fields
session_field none = end
session_field (some v) = field (codes "sessionID") v end

-- the session of an event that is not looked into; `properties["sessionID"]` of a list or a text
-- raises, and so does `in` of a number
unfoldable pub logged_properties : Value → Result StreamError Fields
logged_properties (obj fs) = ok (session_field (get (codes "sessionID") fs))
logged_properties (arr vs) = if has_text (codes "sessionID") vs then err bad_properties else ok end
logged_properties (str s) = if is_in (codes "sessionID") s then err bad_properties else ok end
logged_properties _ = err bad_properties

abbrev type_value : Option Value → Value
type_value none = null
type_value (some v) = v

unfoldable pub logged_event : Fields → Result StreamError Fields
logged_event event = do
  logged ← logged_properties (properties_of (get (codes "properties") event))
  ok (
      field (codes "type") (type_value (get (codes "type") event))
        (field (codes "properties") (obj logged) end))

unfoldable pub sanitize_known : Fields → Text → Option Text → Result StreamError Fields
sanitize_known event event_type none = logged_event event
sanitize_known event event_type (some kind) = ok (sanitized_event event_type event)

unfoldable pub sanitize_typed : Fields → Option Text → Result StreamError Fields
sanitize_typed event none = logged_event event
sanitize_typed event (some event_type) = sanitize_known event event_type (kind_of event_type)

unfoldable pub sanitize_event_for_log : Fields → Result StreamError Fields
sanitize_event_for_log event = do
  event_type ← type_text (get (codes "type") event)
  sanitize_typed event event_type
