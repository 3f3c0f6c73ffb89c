-- ===== src/Wait/Entry.antt =====
-- A waiter that enters, in wait_coordinator.py, or fails to.
use opencode_orchestrator.Prelude.{
  ℕ, ◌≡◌, refl, sym, subst, true, false, Option, none, some, ==_iff, if_ind,
}
use opencode_orchestrator.Prelude.Result.{Result, ok, err}
use opencode_orchestrator.Text.{Text}
use opencode_orchestrator.Wait.{
  WaitLease, Holder, lease, WaitCoordinator, WaitError, Clock, assign, assign_lease, is_lease,
  forget, let_go, register,
}
use opencode_orchestrator.Wait.Tables.{
  assign_self, assign_undo, assign_lease_same, assign_lease_twice, lease_ne, unattached,
}
use opencode_orchestrator.Wait.Exclusive.{IsExclusive}
use opencode_orchestrator.Wait.Exclusive.{entered-IsExclusive}
use opencode_orchestrator.Value.{Fields}
use opencode_orchestrator.Task.Store.{TaskStore, StoreError, task_dir}
use opencode_orchestrator.Wait.{finish_entry, enter_locked, enter_lock, enter_lease, enter}

pub store-IsExclusive :
    (c : WaitCoordinator) (s : TaskStore) → IsExclusive c → IsExclusive (record c { store = s })
store-IsExclusive c s v = record {
  task_owner = v.task_owner;
  request_owner = v.request_owner;
  attached_owner = v.attached_owner;
  lock_owner = v.lock_owner;
}

-- what an entry does: it leaves the waiters exclusive, or fails and leaves everything as it was
abbrev Keeps : WaitCoordinator → Result WaitError Unit × WaitCoordinator → Type 0
Keeps c (ok _, c') = IsExclusive c'
Keeps c (err e, c') = c' ≡ c

module _ (clock : Clock) (c : WaitCoordinator) (v : IsExclusive c) (i : ℕ) (l : WaitLease)
    (is_i : c.leases i ≡ some l) (off : l.is_attached ≡ false)
    (free : c.wait_locks l.task_id ≡ none) where
  locked : WaitCoordinator
  locked = record c { wait_locks = assign l.task_id (some (lease i)) c.wait_locks }

  task_not_own : is_lease i (c.by_task l.task_id) ≡ false
  task_not_own = go (c.by_task l.task_id) refl
    where
      go : (o : Option ℕ) → c.by_task l.task_id ≡ o → is_lease i o ≡ false
      go none e = refl
      go (some j) e =
          let (m, is_m, on, _) = v.task_owner l.task_id j e in
          lease_ne i j (λ same. cc (off, on, is_i, is_m, same))

  request_not_own : is_lease i (c.by_request l.request_id) ≡ false
  request_not_own = go (c.by_request l.request_id) refl
    where
      go : (o : Option ℕ) → c.by_request l.request_id ≡ o → is_lease i o ≡ false
      go none e = refl
      go (some j) e =
          let (m, is_m, on, _) = v.request_owner l.request_id j e in
          lease_ne i j (λ same. cc (off, on, is_i, is_m, same))

  detached_again : assign_lease i (record l { is_attached = false }) c.leases ≡ c.leases
  detached_again = rw (unattached l off) (assign_lease_same i l c.leases is_i)

  -- the registries have the task or the request: the lock is freed again
  refused : let_go (forget locked i l) i l ≡ c
  unfolding locked let_go forget
  refused =
      rw
        (
          task_not_own,
          request_not_own,
          detached_again,
          assign_undo l.task_id (some (lease i)) c.wait_locks free,
        )
        refl

  -- the write failed: the registries forget the lease, and the lock is freed
  undone :
      c.by_task l.task_id ≡ none
      → c.by_request l.request_id ≡ none
      → let_go (forget (register locked i l) i l) i l ≡ c
  unfolding locked let_go forget register
  undone no_task no_request =
      rw
        (
          assign_self l.task_id (some i) c.by_task,
          assign_self l.request_id (some i) c.by_request,
          (==_iff i i).1 refl,
          assign_undo l.task_id (some i) c.by_task no_task,
          assign_undo l.request_id (some i) c.by_request no_request,
          assign_lease_twice i (record l { is_attached = false }) (record l { is_attached = true })
              c.leases,
          detached_again,
          assign_undo l.task_id (some (lease i)) c.wait_locks free,
        )
        refl

  finish_entry-Keeps :
      (r : Result StoreError (Fields × TaskStore))
      → c.by_task l.task_id ≡ none
      → c.by_request l.request_id ≡ none
      → Keeps c (finish_entry (register locked i l) i l r)
  unfolding finish_entry locked
  finish_entry-Keeps (ok (state, s)) no_task no_request =
      store-IsExclusive _ s (entered-IsExclusive c v i l is_i off free no_request)
  finish_entry-Keeps (err e) no_task no_request = undone no_task no_request

  enter_locked-Keeps : Keeps c (enter_locked clock locked i l)
  unfolding enter_locked locked
  enter_locked-Keeps = go (c.by_task l.task_id) (c.by_request l.request_id) refl refl
    where
      go :
          (a b : Option ℕ)
          → c.by_task l.task_id ≡ a
          → c.by_request l.request_id ≡ b
          → Keeps c (enter_locked clock locked i l)
      go none none p q = rw (p, q) (finish_entry-Keeps _ p q)
      go (some j) b p q = rw p refused
      go none (some k) p q = rw (p, q) refused

  enter_lock-Keeps : Keeps c (enter_lock clock c i l (task_dir l.task_id) none)
  unfolding enter_lock locked
  enter_lock-Keeps = go (task_dir l.task_id)
    where
      go : (r : Result StoreError Text) → Keeps c (enter_lock clock c i l r none)
      go (err e) = refl
      go (ok directory) = enter_locked-Keeps

enter_lock_taken :
    (clock : Clock) (c : WaitCoordinator) (i : ℕ) (l : WaitLease) (r : Result StoreError Text)
    (h : Holder)
    → Keeps c (enter_lock clock c i l r (some h))
unfolding enter_lock
enter_lock_taken clock c i l (err e) h = refl
enter_lock_taken clock c i l (ok directory) h = refl

enter-Keeps :
    (clock : Clock) (c : WaitCoordinator) (i : ℕ) → IsExclusive c → Keeps c (enter clock c i)
unfolding enter enter_lease
enter-Keeps clock c i v = go (c.leases i) refl
  where
    by_lock :
        (l : WaitLease) (h : Option Holder)
        → c.leases i ≡ some l
        → l.is_attached ≡ false
        → c.wait_locks l.task_id ≡ h
        → Keeps c (enter_lock clock c i l (task_dir l.task_id) h)
    by_lock l none e off free = enter_lock-Keeps clock c v i l e off free
    by_lock l (some h) e off taken = enter_lock_taken clock c i l (task_dir l.task_id) h

    go : (o : Option WaitLease) → c.leases i ≡ o → Keeps c (enter_lease clock c i o)
    go none e = refl
    go (some l) e =
        if_ind (Keeps c) l.is_attached _ _ (λ _. refl)
          (λ off. by_lock l (c.wait_locks l.task_id) e off refl)

-- An entry that raises leaves nothing behind: if the waiters are exclusive, then whatever the error,
-- and wherever it was raised, the registries, the leases, the locks and the store are as they were.
pub enter_failed :
    (clock : Clock) (c : WaitCoordinator) (i : ℕ) {e : WaitError} {c' : WaitCoordinator}
    → IsExclusive c
    → enter clock c i ≡ (err e, c')
    → c' ≡ c
enter_failed clock c i {e} {c'} v h = subst (Keeps c) h (enter-Keeps clock c i v)

pub enter-IsExclusive :
    (clock : Clock) (c : WaitCoordinator) (i : ℕ) → IsExclusive c → IsExclusive (enter clock c i).1
enter-IsExclusive clock c i v = go (enter clock c i) (enter-Keeps clock c i v)
  where
    go : (r : Result WaitError Unit × WaitCoordinator) → Keeps c r → IsExclusive r.1
    go (ok _, c') k = k
    go (err e, c') k = subst IsExclusive (sym k) v
