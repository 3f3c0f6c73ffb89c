-- ===== src/Wait.antt =====
-- src/opencode_orchestrator/wait_coordinator.py: `WaitCoordinator` with its leases. A lease is an
-- object, named by a number; the two registries are functions from keys; `wait_locks` has who holds a
-- task's `wait.lock`, a lease of this process or another process. A lease holds its `_file_lock`
-- exactly while it is attached. Times, the process's number and the outcomes of the store's lock
-- attempts are in `Clock`.
pub mod Repair
pub mod Tables
pub mod Exclusive
pub mod Released
pub mod Entry
pub mod Acts
pub mod Run
pub mod Examples
use opencode_orchestrator.Prelude.{
  ℕ, String, Bool, true, false, not, ◌&&◌, ◌||◌, List, [], ◌∷◌, Option, none, some, ◌==◌, is_empty,
  if◌then◌else◌,
}
use opencode_orchestrator.Prelude.Result.{Result, ok, err, require, ◌>>=◌, ◌>>◌}
use opencode_orchestrator.Text.{Text, codes, text_eq, is_blank}
use opencode_orchestrator.Value.{
  Value, pos, null, int, str, arr, obj, nil, Fields, end, field, get, put,
}
use opencode_orchestrator.Cancellation.{CancellationToken, new_token, cancel}
use opencode_orchestrator.Task.States.{attached, detached, cancelled, wait_state_text}
use opencode_orchestrator.Task.Store.{TaskStore, StoreError, mutator_error, task_dir, load, update}

pub record WaitLease : Type 0 where
  pub task_id : Text
  pub request_id : Text
  pub token : CancellationToken
  pub is_attached : Bool

pub data Holder : Type 0 where
  lease : ℕ → Holder
  elsewhere : Holder

pub record WaitCoordinator : Type 0 where
  pub store : TaskStore
  pub by_task : Text → Option ℕ
  pub by_request : Text → Option ℕ
  pub leases : ℕ → Option WaitLease
  pub wait_locks : Text → Option Holder

pub data WaitError : Type 0 where
  blank_request_id no_lease already_attached lock_taken registered bad_wait : WaitError
  store_error : StoreError → WaitError

pub record Clock : Type 0 where
  pub at : Text
  pub now : Text
  pub pid : ℕ
  pub free : ℕ → Bool

-- what `__init__` has before `_repair_stale_owners`
unfoldable pub new_coordinator : TaskStore → WaitCoordinator
new_coordinator s = record {
  store = s;
  by_task = λ _. none;
  by_request = λ _. none;
  leases = λ _. none;
  wait_locks = λ _. none;
}

-- `table[key] = value`, and `del table[key]` for no value
abbrev pub assign {ℓ} : {A : Type ℓ} → Text → Option A → (Text → Option A) → Text → Option A
assign key v table other = if text_eq key other then v else table other

abbrev pub assign_lease : ℕ → WaitLease → (ℕ → Option WaitLease) → ℕ → Option WaitLease
assign_lease i l leases other = if i == other then some l else leases other

-- `table.get(key) is lease`
abbrev pub is_lease : ℕ → Option ℕ → Bool
is_lease i none = false
is_lease i (some j) = i == j

abbrev pub lift_store : {A : Type 0} → Result StoreError A → Result WaitError A
lift_store (ok a) = ok a
lift_store (err e) = err (store_error e)

-- `attach`, whose new lease is the object `i`
unfoldable pub attach : WaitCoordinator → ℕ → Text → Text → Result WaitError WaitCoordinator
attach c i task_id request_id = do
  require (not (is_blank request_id)) blank_request_id
  state ← lift_store (load c.store task_id)
  ok (record c {
    leases =
        assign_lease i
          (record {
            task_id = task_id;
            request_id = request_id;
            token = new_token;
            is_attached = false;
          })
          c.leases;
  })

-- `lease.token.cancel(reason)` for the lease that a registry has; the callbacks that it then calls, which
-- event_stream.py adds, do not touch the coordinator
unfoldable pub cancel_lease : WaitCoordinator → ℕ → Option WaitLease → Text → Bool × WaitCoordinator
cancel_lease c i none reason = (false, c)
cancel_lease c i (some l) reason =
    let ((first, callbacks), token) = cancel l.token reason in
    (first, record c { leases = assign_lease i (record l { token = token }) c.leases })

unfoldable pub cancel_registered : WaitCoordinator → Option ℕ → Text → Bool × WaitCoordinator
cancel_registered c none reason = (false, c)
cancel_registered c (some i) reason = cancel_lease c i (c.leases i) reason

unfoldable pub cancel_task : WaitCoordinator → Text → Text → Bool × WaitCoordinator
cancel_task c task_id reason = cancel_registered c (c.by_task task_id) reason

unfoldable pub cancel_request_id : WaitCoordinator → Text → Text → Bool × WaitCoordinator
cancel_request_id c request_id reason = cancel_registered c (c.by_request request_id) reason

-- `mark_attached`
abbrev pub mark_attached : Clock → Text → Fields → Result StoreError Fields
mark_attached clock request_id state = ok (
    put (codes "wait")
      (obj (
        field (codes "owner_pid") (int (pos clock.pid)) (
          field (codes "request_id") (str request_id) (
            field (codes "attached_at") (str clock.at)
              (field (codes "disconnect_reason") null end)))))
      (put (codes "wait_state") (str (wait_state_text attached)) state))

-- `dict(state.get("wait", {}))`; what is neither a `dict` nor empty raises (a list of pairs, which is
-- never written there, counts as such)
abbrev pub wait_of : Option Value → Result StoreError Fields
wait_of none = ok end
wait_of (some (obj wait)) = ok wait
wait_of (some (arr nil)) = ok end
wait_of (some (str s)) = if is_empty s then ok end else err mutator_error
wait_of (some _) = err mutator_error

abbrev disconnect_reason : CancellationToken → Value
disconnect_reason token = reason_of (if token.is_set then token.reason else none)
  where
    reason_of : Option Text → Value
    reason_of none = null
    reason_of (some r) = str r

-- `mark_detached`
abbrev pub mark_detached : Clock → CancellationToken → Fields → Result StoreError Fields
mark_detached clock token state = do
  wait ← wait_of (get (codes "wait") state)
  ok (
      put (codes "wait_state")
        (str (wait_state_text (if token.is_set then cancelled else detached)))
        (put (codes "wait")
          (obj (
            put (codes "disconnect_reason") (disconnect_reason token)
              (put (codes "detached_at") (str clock.at) wait)))
          state))

-- both registries forget the lease, where they have it
unfoldable pub forget : WaitCoordinator → ℕ → WaitLease → WaitCoordinator
forget c i l = record c {
  by_task = if is_lease i (c.by_task l.task_id) then assign l.task_id none c.by_task else c.by_task;
  by_request =
      if is_lease i (c.by_request l.request_id)
      then assign l.request_id none c.by_request
      else c.by_request;
}

-- the end of `_exit`, and of an entry that failed: the lease is detached, and its lock is free
unfoldable pub let_go : WaitCoordinator → ℕ → WaitLease → WaitCoordinator
let_go c i l = record c {
  leases = assign_lease i (record l { is_attached = false }) c.leases;
  wait_locks = assign l.task_id none c.wait_locks;
}

-- the registries have the lease, and it is attached
unfoldable pub register : WaitCoordinator → ℕ → WaitLease → WaitCoordinator
register c i l = record c {
  by_task = assign l.task_id (some i) c.by_task;
  by_request = assign l.request_id (some i) c.by_request;
  leases = assign_lease i (record l { is_attached = true }) c.leases;
}

-- the write of `mark_attached`, and what follows it
unfoldable pub finish_entry :
    WaitCoordinator
    → ℕ
    → WaitLease
    → Result StoreError (Fields × TaskStore)
    → Result WaitError Unit × WaitCoordinator
finish_entry c i l (ok (state, store)) = (ok tt, record c { store = store })
finish_entry c i l (err e) = (err (store_error e), let_go (forget c i l) i l)

abbrev is_present {ℓ} : {A : Type ℓ} → Option A → Bool
is_present none = false
is_present (some _) = true

-- from the registry lock on; `c` has the task's `wait.lock`
unfoldable pub enter_locked :
    Clock → WaitCoordinator → ℕ → WaitLease → Result WaitError Unit × WaitCoordinator
enter_locked clock c i l =
    if is_present (c.by_task l.task_id) || is_present (c.by_request l.request_id)
    then (err registered, let_go (forget c i l) i l)
    else finish_entry (register c i l) i l
        (update clock.now c.store clock.free l.task_id (mark_attached clock l.request_id))

-- `file_lock.__enter__()`
unfoldable pub enter_lock :
    Clock
    → WaitCoordinator
    → ℕ
    → WaitLease
    → Result StoreError Text
    → Option Holder
    → Result WaitError Unit × WaitCoordinator
enter_lock clock c i l (err e) holder = (err (store_error e), c)
enter_lock clock c i l (ok directory) (some holder) = (err lock_taken, c)
enter_lock clock c i l (ok directory) none =
    enter_locked clock (record c { wait_locks = assign l.task_id (some (lease i)) c.wait_locks }) i
      l

unfoldable pub enter_lease :
    Clock → WaitCoordinator → ℕ → Option WaitLease → Result WaitError Unit × WaitCoordinator
enter_lease clock c i none = (err no_lease, c)
enter_lease clock c i (some l) =
    if l.is_attached
    then (err already_attached, c)
    else enter_lock clock c i l (task_dir l.task_id) (c.wait_locks l.task_id)

-- `_enter`
unfoldable pub enter : Clock → WaitCoordinator → ℕ → Result WaitError Unit × WaitCoordinator
enter clock c i = enter_lease clock c i (c.leases i)

-- the write of `mark_detached`: whether it raises or not, the lease lets go
unfoldable pub finish_exit :
    WaitCoordinator
    → ℕ
    → WaitLease
    → Result StoreError (Fields × TaskStore)
    → Result WaitError Unit × WaitCoordinator
finish_exit c i l (ok (state, store)) = (ok tt, let_go (record c { store = store }) i l)
finish_exit c i l (err e) = (err (store_error e), let_go c i l)

unfoldable pub exit_lease :
    Clock → WaitCoordinator → ℕ → Option WaitLease → Result WaitError Unit × WaitCoordinator
exit_lease clock c i none = (err no_lease, c)
exit_lease clock c i (some l) =
    if not l.is_attached
    then (ok tt, c)
    else finish_exit (forget c i l) i l
        (update clock.now c.store clock.free l.task_id (mark_detached clock l.token))

-- `_exit`
unfoldable pub exit : Clock → WaitCoordinator → ℕ → Result WaitError Unit × WaitCoordinator
exit clock c i = exit_lease clock c i (c.leases i)
