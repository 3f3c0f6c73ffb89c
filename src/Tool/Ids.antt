-- ===== src/Tool/Ids.antt =====
-- The task ids that tool_service.py accepts, for the store of task_state.py.
use opencode_orchestrator.Prelude.{
  ℕ, ◌≡◌, refl, true, false, ◌&&◌, [], ◌∷◌, arith, all, ◌==◌, &&-true,
}
use opencode_orchestrator.Prelude.Result.{ok, IfOk-ok}
use opencode_orchestrator.Text.{Text, codes, text_eq, starts_with, is_in}
use opencode_orchestrator.Value.{Value}
use opencode_orchestrator.Task.Store.{task_dir}
use opencode_orchestrator.Tool.{is_id_char, matches_task_id, task_id_of}
use opencode_orchestrator.Tool.Bounds.{IsTaskId, task_id_of-IsTaskId}

no_slash : (c : ℕ) → is_id_char c ≡ true → (b'/' == c) ≡ false
unfolding is_id_char
no_slash c h = ground arith

all-no_slash : (s : Text) → all is_id_char s ≡ true → is_in (codes "/") s ≡ false
unfolding all is_in starts_with
all-no_slash [] h = refl
all-no_slash (c ∷ s) h =
    let (first, rest) = &&-true (is_id_char c) (all is_id_char s) h in
    rw (no_slash c first, all-no_slash s rest) refl

IsTaskId-tests :
    (t : Text) → IsTaskId t → (starts_with (codes "oc-") t ≡ true) × (is_in (codes "/") t ≡ false)
unfolding matches_task_id starts_with text_eq is_in
IsTaskId-tests [] h = cc
IsTaskId-tests (a ∷ []) h = cc
IsTaskId-tests (a ∷ b ∷ []) h = cc
IsTaskId-tests (a ∷ b ∷ c ∷ []) h = cc
IsTaskId-tests (a ∷ b ∷ c ∷ d ∷ rest) h =
    let (prefix, chars) =
      &&-true (a == b'o' && (b == b'c' && (c == b'-' && true)))
        (is_id_char d && all is_id_char rest) h in
    let (first, others) = &&-true (is_id_char d) (all is_id_char rest) chars in
    let e = all-no_slash rest others in
    let f = no_slash d first in (ground arith, rw (f, e) (ground arith))

-- A task id that a tool call brings is one that the store takes, as the name of the task's directory,
-- unless it has two dots in a row: the pattern of the tools lets those through, and the store does not.
pub task_id_of-task_dir :
    (value : Value) {task_id : Text}
    → task_id_of value ≡ ok task_id
    → is_in (codes "..") task_id ≡ false
    → task_dir task_id ≡ ok task_id
unfolding task_dir
task_id_of-task_dir value {task_id} e plain =
    let (prefixed, no_slash) =
      IsTaskId-tests task_id (IfOk-ok IsTaskId (task_id_of value) (task_id_of-IsTaskId value) e) in
    rw (prefixed, no_slash, plain) refl
