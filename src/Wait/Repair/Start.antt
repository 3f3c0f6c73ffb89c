-- ===== src/Wait/Repair/Start.antt =====
-- The loop of the repair in wait_coordinator.py, and the start of a coordinator.
use opencode_orchestrator.Prelude.{
  ◌≡◌, refl, ap, ◌∙◌, Bool, true, false, ◌&&◌, List, [], ◌∷◌, Option, none, some, inl, &&-true,
  if_ind,
}
use opencode_orchestrator.Prelude.Result.{Result, ok, err}
use opencode_orchestrator.Text.{Text, codes}
use opencode_orchestrator.Value.{Value, Fields, get}
use opencode_orchestrator.Task.Store.{TaskStore, StoreError, load, update}
use opencode_orchestrator.Wait.{WaitCoordinator, Holder, WaitError, Clock, new_coordinator}
use opencode_orchestrator.Wait.Tables.{text_ne}
use opencode_orchestrator.Wait.Repair.{
  is_schema_3, is_attached_state, owner_pid, repair, finish_repair, repair_locked, repair_owned,
  repair_loaded, repair_owner, repair_stale_owners, start,
}
use opencode_orchestrator.Wait.Repair.Stale.{
  IsRepairedStore, IsRepaired-trans, update-IsRepairedStore, update_others,
}

-- a task whose lock is held is as it was
abbrev LeavesHeld : WaitCoordinator → WaitCoordinator → Type 0
LeavesHeld c c' =
    (t : Text) (h : Holder) → c.wait_locks t ≡ some h → c'.store.states t ≡ c.store.states t

-- the registries, the leases and the locks are as they were, and the store is repaired, where no lock
-- is held
abbrev pub IsRepairOf :
    (Value → Bool) → WaitCoordinator → Result WaitError Unit × WaitCoordinator → Type 0
IsRepairOf alive c (r, c') =
    (c' ≡ record c { store = c'.store }) × IsRepairedStore alive c.store c'.store × LeavesHeld c c'

module _ (alive : Value → Bool) where
  repair_owner-IsRepairOf :
      (clock : Clock) (c : WaitCoordinator) (task_id : Text)
      → IsRepairOf alive c (repair_owner alive clock c task_id)
  unfolding repair_owner repair_loaded repair_owned repair_locked finish_repair
  repair_owner-IsRepairOf clock c task_id = loaded (load c.store task_id) refl
    where
      finished :
          (old : Fields) {pid : Value} (r : Result StoreError (Fields × TaskStore))
          → load c.store task_id ≡ ok old
          → is_attached_state (get (codes "wait_state") old) ≡ true
          → owner_pid (get (codes "wait") old) ≡ ok pid
          → alive pid ≡ false
          → c.wait_locks task_id ≡ none
          → update clock.now c.store clock.free task_id (repair alive clock) ≡ r
          → IsRepairOf alive c (finish_repair alive c r)
      finished old (err x) is_old on owned gone unlocked e = (refl, λ t. inl refl, λ t h e. refl)
      finished old (ok (state, s')) is_old on owned gone unlocked e = (
        refl,
        update-IsRepairedStore alive clock c task_id old is_old on owned gone e,
        λ t h held.
            update_others alive clock c.store task_id e t
              (text_ne task_id t (λ same. cc (ap c.wait_locks same, unlocked, held))),
      )

      locked :
          (old : Fields) {pid : Value} (o : Option Holder)
          → load c.store task_id ≡ ok old
          → is_attached_state (get (codes "wait_state") old) ≡ true
          → owner_pid (get (codes "wait") old) ≡ ok pid
          → alive pid ≡ false
          → c.wait_locks task_id ≡ o
          → IsRepairOf alive c (repair_locked alive clock c task_id o)
      locked old (some holder) is_old on owned gone held = (refl, λ t. inl refl, λ t h e. refl)
      locked old none is_old on owned gone unlocked =
          finished old (update clock.now c.store clock.free task_id (repair alive clock)) is_old on
            owned gone unlocked refl

      owned_by :
          (old : Fields) (r : Result WaitError Value)
          → load c.store task_id ≡ ok old
          → is_attached_state (get (codes "wait_state") old) ≡ true
          → owner_pid (get (codes "wait") old) ≡ r
          → IsRepairOf alive c (repair_owned alive clock c task_id r)
      owned_by old (err x) is_old on owned = (refl, λ t. inl refl, λ t h e. refl)
      owned_by old (ok pid) is_old on owned =
          if_ind (IsRepairOf alive c) (alive pid) _ _ (λ _. (refl, λ t. inl refl, λ t h e. refl))
            (λ gone. locked old (c.wait_locks task_id) is_old on owned gone refl)

      loaded :
          (r : Result StoreError Fields)
          → load c.store task_id ≡ r
          → IsRepairOf alive c (repair_loaded alive clock c task_id r)
      loaded (err x) e = (refl, λ t. inl refl, λ t h e. refl)
      loaded (ok old) e =
          if_ind (IsRepairOf alive c)
            (is_schema_3 (get (codes "schema_version") old)
              && is_attached_state (get (codes "wait_state") old))
            _ _
            (λ both.
              owned_by old (owner_pid (get (codes "wait") old)) e
                (&&-true (is_schema_3 (get (codes "schema_version") old))
                  (is_attached_state (get (codes "wait_state") old)) both).1
                refl)
            (λ _. (refl, λ t. inl refl, λ t h e. refl))

  IsRepairOf-trans :
      (c c' : WaitCoordinator) (out : Result WaitError Unit × WaitCoordinator)
      → IsRepairOf alive c (ok tt, c')
      → IsRepairOf alive c' out
      → IsRepairOf alive c out
  IsRepairOf-trans c c' (r, c'') (e, h, m) (f, k, n) = (
    f ∙ ap (λ (d : WaitCoordinator). record d { store = c''.store }) e,
    λ t.
        IsRepaired-trans alive (c.store.states t) (c'.store.states t) (c''.store.states t) (h t)
          (k t),
    λ t holder held.
        n t holder (ap (λ (d : WaitCoordinator). d.wait_locks t) e ∙ held) ∙ m t holder held,
  )

  repair_stale_owners-IsRepairOf :
      (tasks : List (Text × Clock)) (c : WaitCoordinator)
      → IsRepairOf alive c (repair_stale_owners alive c tasks)
  unfolding repair_stale_owners
  repair_stale_owners-IsRepairOf [] c = (refl, λ t. inl refl, λ t h e. refl)
  repair_stale_owners-IsRepairOf ((task_id, clock) ∷ rest) c =
      go (repair_owner alive clock c task_id) (repair_owner-IsRepairOf clock c task_id)
        (λ c'. repair_stale_owners-IsRepairOf rest c')
    where
      go :
          (out : Result WaitError Unit × WaitCoordinator)
          → IsRepairOf alive c out
          → ((c' : WaitCoordinator) → IsRepairOf alive c' (repair_stale_owners alive c' rest))
          → IsRepairOf alive c (elim out.0 [
            | ok done ↦ repair_stale_owners alive out.1 rest
            | err e ↦ (err e, out.1)
          ])
      go (ok done, c') h k = IsRepairOf-trans c c' (repair_stale_owners alive c' rest) h (k c')
      go (err e, c') h k = h

-- A coordinator that starts touches only what a lost owner left. Let other processes hold some wait
-- locks, the same throughout. Whatever the listed tasks and the attempts on the lock of the store, the
-- coordinator has no registered wait and no lease at the end, and the wait locks are held as before.
-- Each state of the store either is as it was, or was attached with an owner that is not alive, and is
-- detached now, its wait saying that the owner was stale; and the state of a task whose wait lock is
-- held is as it was.
pub start-IsRepairedStore :
    (alive : Value → Bool) (store : TaskStore) (locks : Text → Option Holder)
    (tasks : List (Text × Clock))
    → ((start alive store locks tasks).1
        ≡ record (new_coordinator (start alive store locks tasks).1.store) { wait_locks = locks })
      × IsRepairedStore alive store (start alive store locks tasks).1.store
      × ((t : Text) (h : Holder)
          → locks t ≡ some h
          → (start alive store locks tasks).1.store.states t ≡ store.states t)
unfolding start new_coordinator
start-IsRepairedStore alive store locks tasks =
    repair_stale_owners-IsRepairOf alive tasks
      (record (new_coordinator store) { wait_locks = locks })
