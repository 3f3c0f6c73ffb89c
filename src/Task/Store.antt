-- ===== src/Task/Store.antt =====
-- `TaskStore` of task_state.py. The directory of states is a function from task ids: what
-- `atomic_write_json` put at `tasks/<id>/state.json`, replaced as a whole. The time of a write
-- (`utc_now`) is an argument, and so are the outcomes of the attempts to take the file lock.
pub mod Files
pub mod Transitions
pub mod Updates
pub mod History
use opencode_orchestrator.Prelude.{
  ℕ, zero, suc, String, Bool, true, false, not, ◌&&◌, ◌||◌, List, [], ◌∷◌, ◌++◌, Option, none, some,
  if◌then◌else◌,
}
use opencode_orchestrator.Prelude.Result.{Result, ok, err, require, ◌>>=◌, ◌>>◌}
use opencode_orchestrator.Text.{Text, codes, text_eq, is_in, starts_with}
use opencode_orchestrator.Value.{
  ℤ, pos, Value, null, bool, int, str, arr, obj, Items, nil, cons, Fields, end, field, get, put,
}
use opencode_orchestrator.Task.States.{
  preparing, execution_state_text, detached, wait_state_text, pending, review_state_text,
}
use opencode_orchestrator.Task.Phase.{Phase, draft, phase_text, may_follow}

pub data StoreError : Type 0 where
  invalid_task_id file_exists file_not_found task_id_mismatch invalid_transition : StoreError
  missing_key unhashable_phase lock_held mutator_error : StoreError

pub record TaskStore : Type 0 where
  pub states : Text → Option Fields

-- `task_dir`: the name of the task's directory under `tasks_root`
unfoldable pub task_dir : Text → Result StoreError Text
task_dir task_id =
    if not (starts_with (codes "oc-") task_id)
      || (is_in (codes "/") task_id || is_in (codes "..") task_id)
    then err invalid_task_id
    else ok task_id

-- `atomic_write_json` at a task's state
unfoldable pub write_state : TaskStore → Text → Fields → TaskStore
write_state s task_id state = record {
  states = λ other. if text_eq task_id other then some state else s.states other;
}

abbrev pub dict : List (Text × Value) → Fields
dict [] = end
dict ((k, v) ∷ l) = field k v (dict l)

abbrev key : String → Value → Text × Value
key k v = (codes k, v)

abbrev text : String → Value
text s = str (codes s)

abbrev number : ℕ → Value
number n = int (pos n)

abbrev empty_list : Value
empty_list = arr nil

abbrev pub source_value : Text → Text → Text → Text → Value
source_value repo_root base_sha original_branch dirty_fingerprint = obj (
    dict (
      key "repo_root" (str repo_root)
      ∷ key "base_sha" (str base_sha)
      ∷ key "original_branch" (str original_branch)
      ∷ key "dirty_fingerprint" (str dirty_fingerprint)
      ∷ []))

abbrev default_permission_policy : Value
default_permission_policy = obj (
    dict (
      key "default" (text "allow")
      ∷ key "persistence" (text "task")
      ∷ key "approval_basis" null
      ∷ key "rules" empty_list
      ∷ []))

abbrev default_progress_policy : Value
default_progress_policy = obj (
    dict (
      key "input_probe_interval_seconds" (number 15)
      ∷ key "stall_timeout_seconds" (number 600)
      ∷ []))

abbrev progress_value : Text → Value
progress_value now = obj (
    dict (
      key "last_progress_at" (str now)
      ∷ key "last_progress_event" (text "task.created")
      ∷ key "idle_seconds" (number 0)
      ∷ key "heartbeat_count" (number 0)
      ∷ key "pending_tools" empty_list
      ∷ key "pending_permissions" empty_list
      ∷ key "pending_questions" empty_list
      ∷ key "diagnostic_error" null
      ∷ key "last_input_probe_at" null
      ∷ []))

abbrev execution_value : Text → Value
execution_value task_id = obj (
    dict (
      key "dispatch_marker" (str (codes "[oc-task:" ++ (task_id ++ codes "]")))
      ∷ key "sse_reconnects" (number 0)
      ∷ key "poll_fallback_used" (bool false)
      ∷ key "review_round" (number 0)
      ∷ key "continuation_round" (number 0)
      ∷ key "continuation" null
      ∷ []))

-- the state that `create` writes
unfoldable pub initial_state : Text → Text → Value → Fields
initial_state now task_id source = dict (
    key "schema_version" (number 3)
    ∷ key "task_id" (str task_id)
    ∷ key "task_fingerprint" null
    ∷ key "phase" (str (phase_text draft))
    ∷ key "execution_state" (str (execution_state_text preparing))
    ∷ key "wait_state" (str (wait_state_text detached))
    ∷ key "review_state" (str (review_state_text pending))
    ∷ key "created_at" (str now)
    ∷ key "updated_at" (str now)
    ∷ key "source" source
    ∷ key "worktree" (obj end)
    ∷ key "opencode" (obj end)
    ∷ key "policy" (obj end)
    ∷ key "permission_policy" default_permission_policy
    ∷ key "progress_policy" default_progress_policy
    ∷ key "permission_audit" empty_list
    ∷ key "task_permission_rules" empty_list
    ∷ key "progress" (progress_value now)
    ∷ key "execution" (execution_value task_id)
    ∷ [])

abbrev pub absent : Option Fields → Bool
absent none = true
absent (some _) = false

unfoldable pub create :
    Text → TaskStore → Text → Text → Text → Text → Text → Result StoreError (Fields × TaskStore)
create now s task_id repo_root base_sha original_branch dirty_fingerprint = do
  directory ← task_dir task_id
  require (absent (s.states directory)) file_exists
  let state =
      initial_state now task_id (source_value repo_root base_sha original_branch dirty_fingerprint)
  ok (state, write_state s directory state)

abbrev pub stored : Option Fields → Result StoreError Fields
stored none = err file_not_found
stored (some state) = ok state

unfoldable pub load : TaskStore → Text → Result StoreError Fields
load s task_id = do directory ← task_dir task_id; stored (s.states directory)

-- `state.get("task_id") != task_id`
unfoldable pub has_task_id : Option Value → Text → Bool
has_task_id (some (str s)) task_id = text_eq s task_id
has_task_id _ task_id = false

unfoldable pub save : Text → TaskStore → Text → Fields → Result StoreError (Fields × TaskStore)
save now s task_id state = do
  require (has_task_id (get (codes "task_id") state) task_id) task_id_mismatch
  let saved = put (codes "updated_at") (str now) state
  directory ← task_dir task_id
  ok (saved, write_state s directory saved)

-- `state.update(updates)`
unfoldable pub put_all : Fields → Fields → Fields
put_all end state = state
put_all (field k v rest) state = put_all rest (put k v state)

-- `phase not in TRANSITIONS.get(current, set())`; a phase that is no text is no key of the table,
-- and a list or a `dict` raises `TypeError`
unfoldable pub phase_allows : Option Value → Text → Result StoreError Unit
phase_allows none phase = err missing_key
phase_allows (some (str current)) phase = require (may_follow current phase) invalid_transition
phase_allows (some (arr vs)) phase = err unhashable_phase
phase_allows (some (obj fs)) phase = err unhashable_phase
phase_allows (some _) phase = err invalid_transition

-- `transition`: keyword arguments cannot repeat `task_id` and `phase`
unfoldable pub transition :
    Text → TaskStore → Text → Text → Fields → Result StoreError (Fields × TaskStore)
transition now s task_id phase updates = do
  state ← load s task_id
  phase_allows (get (codes "phase") state) phase
  save now s task_id (put_all updates (put (codes "phase") (str phase) state))

-- `update`, under the lock: the mutator may raise, and then nothing is written
unfoldable pub mutate :
    Text
    → TaskStore
    → Text
    → (Fields → Result StoreError Fields)
    → Result StoreError (Fields × TaskStore)
mutate now s task_id mutator = do
  state ← load s task_id
  state' ← mutator state
  save now s task_id state'

-- the attempts of `update`: `free i` says whether attempt `i` finds the lock free
unfoldable pub attempts :
    ℕ
    → ℕ
    → (ℕ → Bool)
    → Result StoreError (Fields × TaskStore)
    → Result StoreError (Fields × TaskStore)
attempts zero i free work = err lock_held
attempts (suc left) i free work = elim (free i) [
  | true ↦ work
  | false ↦ attempts left (suc i) free work
]

abbrev pub max_attempts : ℕ
max_attempts = 51

unfoldable pub update :
    Text
    → TaskStore
    → (ℕ → Bool)
    → Text
    → (Fields → Result StoreError Fields)
    → Result StoreError (Fields × TaskStore)
update now s free task_id mutator = do
  directory ← task_dir task_id
  attempts max_attempts 0 free (mutate now s task_id mutator)
