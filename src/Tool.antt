-- ===== src/Tool.antt =====
-- src/opencode_orchestrator/tool_service.py: the checks that `ToolService` makes of a tool call. A check
-- that raises is an error without its message. Contract has the checks of what a task is created
-- with, Reply those of a reply, Call those of each tool, up to the calls of the service that follow,
-- and Result what is answered from a task's state.
pub mod Contract
pub mod Reply
pub mod Call
pub mod Outcome
pub mod Evaluable
pub mod Approved
pub mod Bounds
pub mod Ids
pub mod Run
pub mod Examples
use opencode_orchestrator.Prelude.{
  ℕ, Bool, true, false, not, ◌&&◌, ◌||◌, List, [], ◌∷◌, Option, none, some, ◌==◌, leb, ltb, all,
  is_empty, if◌then◌else◌,
}
use opencode_orchestrator.Prelude.Result.{Result, ok, err, require, ◌>>=◌, ◌>>◌}
use opencode_orchestrator.Text.{Text, codes, texts, text_eq, is_one_of, starts_with, is_blank}
use opencode_orchestrator.Value.{
  Value, pos, null, bool, int, str, arr, obj, Items, nil, cons, Fields, field, get, keys,
}
use opencode_orchestrator.Permission.Policy.{PolicyError, only_keys}

pub data ToolInputError : Type 0 where
  not_object missing_keys unknown_keys blank_text not_string_list not_strings blank_paths :
      ToolInputError
  not_boolean not_integer out_of_range bad_task_id tests_not_passed bad_response : ToolInputError
  always_needs_approval remember_needs_once remember_needs_approval bad_answers bad_kind :
      ToolInputError
  unknown_tool relative_repo bad_cursor unhashable : ToolInputError
  bad_policy : PolicyError → ToolInputError

-- `_object`
unfoldable pub as_object : Value → Result ToolInputError Fields
as_object (obj fs) = ok fs
as_object _ = err not_object

abbrev pub holds_key : Fields → Text → Bool
holds_key fs key = is_one_of key (keys fs)

-- `_keys`
unfoldable pub check_keys : Fields → List Text → List Text → Result ToolInputError Unit
check_keys fs required allowed = do
  require (all (holds_key fs) required) missing_keys
  require (only_keys allowed fs) unknown_keys

abbrev pub value_or_null : Option Value → Value
value_or_null none = null
value_or_null (some v) = v

-- `value[key]`, after `_keys`: a missing key is read as null, which no check accepts
abbrev pub item : Text → Fields → Value
item key fs = value_or_null (get key fs)

-- `value.get(key, default)`
unfoldable pub get_or : Option Value → Value → Value
get_or none default = default
get_or (some v) default = v

-- `_nonblank`
unfoldable pub nonblank : Value → Result ToolInputError Text
nonblank (str s) = if is_blank s then err blank_text else ok s
nonblank _ = err blank_text

unfoldable pub all_strings : Items → Bool
all_strings nil = true
all_strings (cons (str s) vs) = all_strings vs
all_strings (cons _ vs) = false

unfoldable pub any_blank : Items → Bool
any_blank nil = false
any_blank (cons (str s) vs) = is_blank s || any_blank vs
any_blank (cons _ vs) = any_blank vs

abbrev no_items : Items → Bool
no_items nil = true
no_items (cons _ _) = false

-- `_string_list`
unfoldable pub string_list : Value → Bool → Result ToolInputError Items
string_list (arr vs) nonempty = do
  require (not (nonempty && no_items vs)) not_string_list
  require (all_strings vs) not_strings
  require (not (nonempty && any_blank vs)) blank_paths
  ok vs
string_list _ nonempty = err not_string_list

-- `_boolean`
unfoldable pub boolean : Value → Result ToolInputError Bool
boolean (bool b) = ok b
boolean _ = err not_boolean

-- `_integer`: all minima are 0 or more
unfoldable pub integer : Value → ℕ → ℕ → Result ToolInputError ℕ
integer (int (pos n)) minimum maximum =
    if ltb n minimum || ltb maximum n then err out_of_range else ok n
integer (int _) minimum maximum = err out_of_range
integer _ minimum maximum = err not_integer

-- `[A-Za-z0-9._-]`
unfoldable pub is_id_char : ℕ → Bool
is_id_char c =
    (leb b'A' c && leb c b'Z')
    || (leb b'a' c && leb c b'z')
    || (leb b'0' c && leb c b'9')
    || c == b'.'
    || c == b'_'
    || c == b'-'

-- `TASK_ID_PATTERN.fullmatch`
unfoldable pub matches_task_id : Text → Bool
matches_task_id (a ∷ b ∷ c ∷ d ∷ rest) =
    text_eq (a ∷ b ∷ c ∷ []) (codes "oc-") && (is_id_char d && all is_id_char rest)
matches_task_id _ = false

-- `_task_id`
unfoldable pub task_id_of : Value → Result ToolInputError Text
task_id_of value = do
  task_id ← nonblank value
  require (matches_task_id task_id) bad_task_id
  ok task_id

abbrev pub timeout_min : ℕ
timeout_min = 1

abbrev pub timeout_max : ℕ
timeout_max = 86400

-- `_timeout`
unfoldable pub timeout : Fields → Result ToolInputError ℕ
timeout arguments =
    integer (get_or (get (codes "timeout_seconds") arguments) (int (pos 3600))) timeout_min
      timeout_max
