-- ===== src/Task/Store/Updates.antt =====
-- `update` of task_state.py: the retries for the lock, and the write under it.
use opencode_orchestrator.Prelude.{
  ℕ, zero, suc, ◌+◌, ◌<◌, ◌≡◌, refl, subst, Bool, true, false, arith, Bool-cases, inl, inr,
}
use opencode_orchestrator.Prelude.Result.{Result, ok, err, >>=-eq-ok}
use opencode_orchestrator.Text.{Text, codes}
use opencode_orchestrator.Value.{Fields, str, put}
use opencode_orchestrator.Task.Store.{
  StoreError, lock_held, TaskStore, task_dir, load, mutate, attempts, max_attempts, update,
}
use opencode_orchestrator.Task.Store.Files.{IsWritten, save-IsWritten}

attempts_free :
    (left i k : ℕ) (free : ℕ → Bool) (work : Result StoreError (Fields × TaskStore))
    → k < left
    → free (i + k) ≡ true
    → attempts left i free work ≡ work
unfolding attempts
attempts_free zero i k free work h f = absurd (omega arith)
attempts_free (suc left) i zero free work h f =
    let e : free i ≡ true = subst (λ n. free n ≡ true) (omega arith) f in rw (e, attempts)
attempts_free (suc left) i (suc k) free work h f = elim (Bool-cases (free i)) [
  | inl now ↦ rw (now, attempts)
  | inr later ↦
      let e : free (suc i + k) ≡ true = subst (λ n. free n ≡ true) (omega arith) f in
      rw (later, attempts) (attempts_free left (suc i) k free work (omega arith) e)
]

attempts_busy :
    (left i : ℕ) (free : ℕ → Bool) (work : Result StoreError (Fields × TaskStore))
    → ((k : ℕ) → k < left → free (i + k) ≡ false)
    → attempts left i free work ≡ err lock_held
unfolding attempts
attempts_busy zero i free work h = refl
attempts_busy (suc left) i free work h =
    let e : free i ≡ false = subst (λ n. free n ≡ false) (omega arith) (h 0 (omega arith)) in
    rw (e, attempts)
      (attempts_busy left (suc i) free work
        (λ k lt. subst (λ n. free n ≡ false) (omega arith) (h (suc k) (omega arith))))

-- For a task id that is accepted: if the lock is free at one of the first 51 attempts, `update` does
-- its work, once.
pub update_free :
    (now : Text) (s : TaskStore) (free : ℕ → Bool) (task_id : Text)
    (mutator : Fields → Result StoreError Fields) (k : ℕ) {directory : Text}
    → task_dir task_id ≡ ok directory
    → k < max_attempts
    → free k ≡ true
    → update now s free task_id mutator ≡ mutate now s task_id mutator
unfolding update
update_free now s free task_id mutator k e lt f = rw e (
    attempts_free max_attempts 0 k free (mutate now s task_id mutator) lt
      (subst (λ n. free n ≡ true) (omega arith) f))

-- For a task id that is accepted: if the lock is taken at each of the first 51 attempts, `update`
-- gives up with the lock's error.
pub update_busy :
    (now : Text) (s : TaskStore) (free : ℕ → Bool) (task_id : Text)
    (mutator : Fields → Result StoreError Fields) {directory : Text}
    → task_dir task_id ≡ ok directory
    → ((k : ℕ) → k < max_attempts → free k ≡ false)
    → update now s free task_id mutator ≡ err lock_held
unfolding update
update_busy now s free task_id mutator e busy = rw e (
    attempts_busy max_attempts 0 free (mutate now s task_id mutator)
      (λ k lt. subst (λ n. free n ≡ false) (omega arith) (busy k lt)))

-- What the write under the lock has done when it returns: the mutator ran on the stored state, and
-- its result is stored, with the time of the write; no other task is touched.
pub mutate-IsWritten :
    (now : Text) (s : TaskStore) (task_id : Text) (mutator : Fields → Result StoreError Fields)
    {state : Fields} {s' : TaskStore}
    → mutate now s task_id mutator ≡ ok (state, s')
    → (old : Fields) × (new : Fields) × (load s task_id ≡ ok old)
      × (mutator old ≡ ok new)
      × (state ≡ put (codes "updated_at") (str now) new)
      × IsWritten s task_id state s'
unfolding mutate
mutate-IsWritten now s task_id mutator h =
    let (old, e, k) = >>=-eq-ok (load s task_id) _ h in
    let (new, m, w) = >>=-eq-ok (mutator old) _ k in
    let (saved, written) = save-IsWritten now s task_id new w in (old, new, e, m, saved, written)
