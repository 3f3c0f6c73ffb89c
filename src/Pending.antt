-- ===== src/Pending.antt =====
-- src/opencode_orchestrator/pending_input.py: what OpenCode asks for is projected onto a safe shape, and
-- from there onto an event. A normalized request is a record; its `dict` has an empty `metadata`
-- besides. `same_number` is Python's `==` on `bool`, `int` and `float`.
pub mod Questions
pub mod Permissions
pub mod Asked
pub mod Run
pub mod Examples
use opencode_orchestrator.Prelude.{
  ℕ, suc, Bool, true, false, not, ◌&&◌, ◌||◌, List, [], ◌∷◌, Option, none, some, ◌==◌, is_empty,
  if◌then◌else◌,
}
use opencode_orchestrator.Prelude.Result.{Result, ok, err, require, ◌>>=◌, ◌>>◌}
use opencode_orchestrator.Text.{Text, codes, text_eq, strip, is_blank}
use opencode_orchestrator.Value.{
  Value, null, bool, int, float, str, arr, obj, Items, nil, cons, Fields, end, field, get,
}
use opencode_orchestrator.Permission.Decide.{targets_of}

pub data PendingInputError : Type 0 where
  not_object bad_text wrong_session missing_field conflicting_fields bad_targets : PendingInputError
  bad_source conflicting_ids bad_questions bad_question bad_options bad_option : PendingInputError
  missing_label bad_description : PendingInputError

abbrev pub count_fields : Fields → ℕ
count_fields end = 0
count_fields (field k v fs) = suc (count_fields fs)

abbrev found : Option Value → (Value → Bool) → Bool
found none test = false
found (some v) test = test v

-- `==` on the values that JSON decodes to: lists item by item, a `dict` by its keys in any order
module _ (same_number : Value → Value → Bool) where
  unfoldable mutual
    pub same_value : Value → Value → Bool
    same_value null null = true
    same_value (str s) (str t) = text_eq s t
    same_value (arr vs) (arr ws) = same_items vs ws
    same_value (obj fs) (obj gs) = count_fields fs == count_fields gs && has_fields fs gs
    same_value (bool a) w = same_number (bool a) w
    same_value (int a) w = same_number (int a) w
    same_value (float a) w = same_number (float a) w
    same_value _ _ = false

    pub same_items : Items → Items → Bool
    same_items nil nil = true
    same_items (cons v vs) (cons w ws) = same_value v w && same_items vs ws
    same_items _ _ = false

    pub has_fields : Fields → Fields → Bool
    has_fields end gs = true
    has_fields (field k v fs) gs = found (get k gs) (same_value v) && has_fields fs gs

-- `_nonblank_string`, of the value that `get` finds
unfoldable pub nonblank_string : Option Value → Result PendingInputError Text
nonblank_string (some (str s)) =
    if is_empty s || is_blank s || not (text_eq s (strip s)) then err bad_text else ok s
nonblank_string _ = err bad_text

unfoldable pub session_id_of : Fields → Text → Result PendingInputError Text
session_id_of raw requested_session_id = do
  requested ← nonblank_string (some (str requested_session_id))
  actual ← nonblank_string (get (codes "sessionID") raw)
  require (text_eq actual requested) wrong_session
  ok actual

unfoldable pub raw_object : Value → Result PendingInputError Fields
raw_object (obj fs) = ok fs
raw_object _ = err not_object

-- the two spellings of one field
unfoldable pub select_either :
    (Value → Value → Bool) → Option Value → Option Value → Result PendingInputError Value
select_either same none none = err missing_field
select_either same none (some legacy) = ok legacy
select_either same (some modern) none = ok modern
select_either same (some modern) (some legacy) =
    if not (same modern legacy) then err conflicting_fields else ok modern

unfoldable pub select_field :
    (Value → Value → Bool) → Fields → Text → Text → Result PendingInputError Value
select_field same_number raw modern_key legacy_key =
    select_either (same_value same_number) (get modern_key raw) (get legacy_key raw)

unfoldable pub target_list : Option (List Text) → Result PendingInputError (List Text)
target_list none = err bad_targets
target_list (some targets) = ok targets

unfoldable pub targets : (Value → Value → Bool) → Fields → Result PendingInputError (List Text)
targets same_number raw = do
  value ← select_field same_number raw (codes "resources") (codes "patterns")
  target_list (targets_of (some value))

-- `raw[key]`, if it is there and not null
unfoldable pub source_of : Option Value → Result PendingInputError (Option Fields)
source_of none = ok none
source_of (some null) = ok none
source_of (some (obj source)) = ok (some source)
source_of (some _) = err bad_source

unfoldable pub agree_on : Option Text → Text → Result PendingInputError (Option Text)
agree_on none value = ok (some value)
agree_on (some known) value =
    if not (text_eq known value) then err conflicting_ids else ok (some value)

unfoldable pub take_id : Option Text → Option Value → Result PendingInputError (Option Text)
take_id known none = ok known
take_id known (some null) = ok known
take_id known (some v) = do value ← nonblank_string (some v); agree_on known value

-- one round of the loop over the sources
unfoldable pub take_ids :
    Option Text × Option Text → Option Fields → Result PendingInputError (Option Text × Option Text)
take_ids known none = ok known
take_ids (message_id, call_id) (some source) = do
  message_id' ← take_id message_id (get (codes "messageID") source)
  call_id' ← take_id call_id (get (codes "callID") source)
  ok (message_id', call_id')

unfoldable pub source_ids : Fields → Result PendingInputError (Option Text × Option Text)
source_ids raw = do
  source ← source_of (get (codes "source") raw)
  tool ← source_of (get (codes "tool") raw)
  ids ← take_ids (none, none) source
  take_ids ids tool

pub record PermissionRequest : Type 0 where
  pub request_id : Text
  pub session_id : Text
  pub permission : Text
  pub patterns : List Text
  pub message_id : Option Text
  pub call_id : Option Text

unfoldable pub normalize_permission_request :
    (Value → Value → Bool) → Value → Text → Result PendingInputError PermissionRequest
normalize_permission_request same_number raw session_id = do
  value ← raw_object raw
  request_id ← nonblank_string (get (codes "id") value)
  actual ← session_id_of value session_id
  chosen ← select_field same_number value (codes "action") (codes "permission")
  permission ← nonblank_string (some chosen)
  patterns ← targets same_number value
  ids ← source_ids value
  ok (record {
    request_id = request_id;
    session_id = actual;
    permission = permission;
    patterns = patterns;
    message_id = ids.0;
    call_id = ids.1;
  })

abbrev pub text_values : List Text → Items
text_values [] = nil
text_values (s ∷ ss) = cons (str s) (text_values ss)

abbrev pub optional_text : Option Text → Value
optional_text none = null
optional_text (some s) = str s

-- the `dict` that `normalize_permission_request` returns
unfoldable pub permission_request_value : PermissionRequest → Fields
permission_request_value r = field (codes "request_id") (str r.request_id) (
    field (codes "session_id") (str r.session_id) (
      field (codes "permission") (str r.permission) (
        field (codes "patterns") (arr (text_values r.patterns)) (
          field (codes "metadata") (obj end) (
            field (codes "message_id") (optional_text r.message_id)
              (field (codes "call_id") (optional_text r.call_id) end))))))

-- `permission_event`: the type of the event, and its properties
abbrev pub event_value : Text → Value → Value
event_value type_ properties =
    obj (field (codes "type") (str type_) (field (codes "properties") properties end))

unfoldable pub permission_properties : PermissionRequest → Value
permission_properties r = obj (
    field (codes "id") (str r.request_id) (
      field (codes "sessionID") (str r.session_id) (
        field (codes "action") (str r.permission)
          (field (codes "resources") (arr (text_values r.patterns)) end))))

unfoldable pub permission_event : PermissionRequest → Value
permission_event r = event_value (codes "permission.reconciled") (permission_properties r)
