-- ===== src/Wait/Repair.antt =====
-- `_repair_stale_owners` of wait_coordinator.py, which the constructor runs: the tasks' directories in the
-- order in which they are listed, each with its clock. `is_alive` is the constructor's `pid_is_alive`. The
-- lock of a repair is free again at its end, so the table of locks is as it was.
pub mod Stale
pub mod Start
use opencode_orchestrator.Prelude.{
  ℕ, Bool, true, false, not, ◌&&◌, ◌||◌, List, [], ◌∷◌, Option, none, some, ◌==◌, if◌then◌else◌,
}
use opencode_orchestrator.Prelude.Result.{Result, ok, err, ◌>>=◌}
use opencode_orchestrator.Text.{Text, codes, text_eq}
use opencode_orchestrator.Value.{
  Value, pos, null, int, float, str, obj, Fields, end, field, get, put,
}
use opencode_orchestrator.Task.States.{attached, detached, wait_state_text}
use opencode_orchestrator.Task.Store.{TaskStore, StoreError, load, update}
use opencode_orchestrator.Wait.{
  WaitCoordinator, Holder, WaitError, bad_wait, store_error, Clock, new_coordinator, wait_of,
}

-- `state.get("schema_version") == 3`, where 3.0 is 3 as well
unfoldable pub is_schema_3 : Option Value → Bool
is_schema_3 (some (int (pos n))) = n == 3
is_schema_3 (some (float x)) = x == 4613937818241073152
is_schema_3 _ = false

-- `state.get("wait_state") == WaitState.ATTACHED.value`
unfoldable pub is_attached_state : Option Value → Bool
is_attached_state (some (str s)) = text_eq s (wait_state_text attached)
is_attached_state _ = false

abbrev pub value_or_none : Option Value → Value
value_or_none none = null
value_or_none (some v) = v

-- `state.get("wait", {}).get("owner_pid")`
unfoldable pub owner_pid : Option Value → Result WaitError Value
owner_pid none = ok null
owner_pid (some (obj wait)) = ok (value_or_none (get (codes "owner_pid") wait))
owner_pid (some _) = err bad_wait

-- what `os.kill(pid, 0)` does
pub data Signal : Type 0 where
  no_process forbidden sent : Signal

abbrev reaches : Signal → Bool
reaches no_process = false
reaches forbidden = true
reaches sent = true

-- `_pid_is_alive`
unfoldable pub pid_is_alive : (ℕ → Signal) → Value → Bool
pid_is_alive kill (int (pos n)) = if n == 0 then false else reaches (kill n)
pid_is_alive kill _ = false

module _ (is_alive : Value → Bool) where
  unfoldable pub repair_wait : Clock → Fields → Fields → Fields
  repair_wait clock wait current =
      if is_alive (value_or_none (get (codes "owner_pid") wait))
      then current
      else put (codes "wait_state") (str (wait_state_text detached)) (
          put (codes "wait")
            (obj (
              put (codes "detached_at") (str clock.at)
                (put (codes "disconnect_reason") (str (codes "stale-owner")) wait)))
            current)

  -- `repair`
  unfoldable pub repair : Clock → Fields → Result StoreError Fields
  repair clock current =
      if not (is_attached_state (get (codes "wait_state") current))
      then ok current
      else (wait_of (get (codes "wait") current) >>= λ wait. ok (repair_wait clock wait current))

  unfoldable pub finish_repair :
      WaitCoordinator
      → Result StoreError (Fields × TaskStore)
      → Result WaitError Unit × WaitCoordinator
  finish_repair c (ok (state, store)) = (ok tt, record c { store = store })
  finish_repair c (err e) = (err (store_error e), c)

  -- `repair_lock.__enter__()`, and the write under it
  unfoldable pub repair_locked :
      Clock → WaitCoordinator → Text → Option Holder → Result WaitError Unit × WaitCoordinator
  repair_locked clock c task_id (some holder) = (ok tt, c)
  repair_locked clock c task_id none =
      finish_repair c (update clock.now c.store clock.free task_id (repair clock))

  unfoldable pub repair_owned :
      Clock
      → WaitCoordinator
      → Text
      → Result WaitError Value
      → Result WaitError Unit × WaitCoordinator
  repair_owned clock c task_id (err e) = (err e, c)
  repair_owned clock c task_id (ok pid) =
      if is_alive pid then (ok tt, c) else repair_locked clock c task_id (c.wait_locks task_id)

  unfoldable pub repair_loaded :
      Clock
      → WaitCoordinator
      → Text
      → Result StoreError Fields
      → Result WaitError Unit × WaitCoordinator
  repair_loaded clock c task_id (err e) = (ok tt, c)
  repair_loaded clock c task_id (ok state) =
      if is_schema_3 (get (codes "schema_version") state)
        && is_attached_state (get (codes "wait_state") state)
      then repair_owned clock c task_id (owner_pid (get (codes "wait") state))
      else (ok tt, c)

  -- one round of the loop
  unfoldable pub repair_owner :
      Clock → WaitCoordinator → Text → Result WaitError Unit × WaitCoordinator
  repair_owner clock c task_id = repair_loaded clock c task_id (load c.store task_id)

  unfoldable pub repair_stale_owners :
      WaitCoordinator → List (Text × Clock) → Result WaitError Unit × WaitCoordinator
  repair_stale_owners c [] = (ok tt, c)
  repair_stale_owners c ((task_id, clock) ∷ rest) =
      let (r, c') = repair_owner clock c task_id in
      elim r [ ok done ↦ repair_stale_owners c' rest | err e ↦ (err e, c') ]

  -- `__init__`, where other processes hold the wait locks that `locks` says
  unfoldable pub start :
      TaskStore
      → (Text → Option Holder)
      → List (Text × Clock)
      → Result WaitError Unit × WaitCoordinator
  start store locks tasks =
      repair_stale_owners (record (new_coordinator store) { wait_locks = locks }) tasks
