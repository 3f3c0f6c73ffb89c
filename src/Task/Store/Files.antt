-- ===== src/Task/Store/Files.antt =====
-- Where `TaskStore` of task_state.py writes, and what it reads back.
use mathlib.Core.Path.{subst₂}
use opencode_orchestrator.Prelude.{
  ◌≡◌, refl, sym, true, false, [], ◌∷◌, some, arith, is_empty, if◌then◌else◌,
}
use opencode_orchestrator.Prelude.Result.{ok, err, >>=-eq-ok, require-eq-ok}
use opencode_orchestrator.Text.{Text, codes, text_eq, is_in, starts_with}
use opencode_orchestrator.Text.Laws.{text_eq_refl}
use opencode_orchestrator.Value.{Value, str, Fields, get, put}
use opencode_orchestrator.Permission.Paths.{dot, dot_dot}
use opencode_orchestrator.Permission.Paths.Canonical.{IsName}
use opencode_orchestrator.Text.Search.{is_in-Lacks}
use opencode_orchestrator.Task.Phase.{draft, phase_text}
use opencode_orchestrator.Task.Store.{
  file_exists, TaskStore, task_dir, write_state, create, load, save, has_task_id, initial_state,
  absent, source_value,
}

not_dots :
    (s : Text)
    → starts_with (codes "oc-") s ≡ true
    → (text_eq s dot ≡ false) × (text_eq s dot_dot ≡ false)
unfolding starts_with text_eq
not_dots [] h = cc
not_dots (c ∷ s) h = (ground arith, ground arith)

filled : (s : Text) → starts_with (codes "oc-") s ≡ true → is_empty s ≡ false
unfolding starts_with
filled [] h = cc
filled (c ∷ s) h = refl

task_dir-tests :
    (task_id : Text) {directory : Text}
    → task_dir task_id ≡ ok directory
    → (directory ≡ task_id)
      × (starts_with (codes "oc-") task_id ≡ true)
      × (is_in (codes "/") task_id ≡ false)
unfolding task_dir
task_dir-tests task_id h = (ground arith, ground arith, ground arith)

-- A task id that is accepted names one entry of the tasks' directory: the directory's name is the
-- id, it has no slash, and it is not empty, `.` or `..`.
pub task_dir-IsName :
    (task_id : Text) {directory : Text}
    → task_dir task_id ≡ ok directory
    → (directory ≡ task_id) × IsName task_id
task_dir-IsName task_id h =
    let (same, prefixed, no_slash) = task_dir-tests task_id h in
    (
      same,
      record {
        filled = filled task_id prefixed;
        not_dot = (not_dots task_id prefixed).0;
        not_dot_dot = (not_dots task_id prefixed).1;
        no_slash = is_in-Lacks b'/' task_id no_slash;
      },
    )

-- What a write leaves in the files.
pub states-write_state :
    (s : TaskStore) (task_id other : Text) (state : Fields)
    → (write_state s task_id state).states other
      ≡ (if text_eq task_id other then some state else s.states other)
unfolding write_state
states-write_state s task_id other state = refl

-- The file of one task holds a state, and those of all other tasks are as they were.
pub record IsWritten (s : TaskStore) (task_id : Text) (state : Fields) (s' : TaskStore)
    : Type 0 where
  pub loads : load s' task_id ≡ ok state
  pub others : (other : Text) → text_eq task_id other ≡ false → s'.states other ≡ s.states other

write_state-IsWritten :
    (s : TaskStore) (task_id : Text) (state : Fields) {directory : Text}
    → task_dir task_id ≡ ok directory
    → IsWritten s task_id state (write_state s directory state)
unfolding load
write_state-IsWritten s task_id state {directory} e =
    let same = (task_dir-tests task_id e).0 in
    record {
      loads = rw (e, states-write_state s directory directory state, text_eq_refl directory);
      others = λ other ne. rw (states-write_state s directory other state, same, ne);
    }

-- What a save has done when it returns: the state has the task's id, and it is written with the
-- time of the write.
pub save-IsWritten :
    (now : Text) (s : TaskStore) (task_id : Text) (state : Fields) {saved : Fields} {s' : TaskStore}
    → save now s task_id state ≡ ok (saved, s')
    → (saved ≡ put (codes "updated_at") (str now) state) × IsWritten s task_id saved s'
unfolding save
save-IsWritten now s task_id state {saved} {s'} h =
    let (own, k) = require-eq-ok (has_task_id (get (codes "task_id") state) task_id) _ _ h in
    let (directory, e, done) = >>=-eq-ok (task_dir task_id) _ k in
    let w = write_state-IsWritten s task_id (put (codes "updated_at") (str now) state) e in
    (cc (done), subst₂ (λ st t. IsWritten s task_id st t) (cc (done)) (cc (done)) w)

initial_state-phase :
    (now task_id : Text) (source : Value)
    → get (codes "phase") (initial_state now task_id source) ≡ some (str (phase_text draft))
unfolding initial_state get text_eq
initial_state-phase now task_id source = refl

-- A task that is created has the state that `create` returns, in the phase `DRAFT`; no other task is
-- touched; and the same id cannot be created again.
pub create-IsWritten :
    (now : Text) (s : TaskStore) (task_id repo_root base_sha branch fingerprint : Text)
    {state : Fields} {s' : TaskStore}
    → create now s task_id repo_root base_sha branch fingerprint ≡ ok (state, s')
    → IsWritten s task_id state s'
      × (get (codes "phase") state ≡ some (str (phase_text draft)))
      × ((later : Text)
          → create later s' task_id repo_root base_sha branch fingerprint ≡ err file_exists)
unfolding create
create-IsWritten now s task_id repo_root base_sha branch fingerprint {state} {s'} h =
    let (directory, e, k) = >>=-eq-ok (task_dir task_id) _ h in
    let (fresh, done) = require-eq-ok (absent (s.states directory)) _ _ k in
    created directory e (cc (done)) (cc (done))
  where
    initial : Fields
    initial = initial_state now task_id (source_value repo_root base_sha branch fingerprint)

    created :
        (directory : Text)
        → task_dir task_id ≡ ok directory
        → state ≡ initial
        → s' ≡ write_state s directory initial
        → IsWritten s task_id state s'
          × (get (codes "phase") state ≡ some (str (phase_text draft)))
          × ((later : Text)
              → create later s' task_id repo_root base_sha branch fingerprint ≡ err file_exists)
    created directory e st sp =
        let w : IsWritten s task_id state s' =
          subst₂ (λ x y. IsWritten s task_id x y) (sym st) (sym sp)
            (write_state-IsWritten s task_id initial e) in
        (
          w,
          rw st (initial_state-phase now task_id _),
          λ later.
              rw (e, sp, states-write_state s directory directory initial, text_eq_refl directory),
        )
