-- ===== src/Wait/Examples.antt =====
-- Runs of wait_coordinator.py: two waiters for one task, of which the second is turned away.
use opencode_orchestrator.Prelude.{
  ◌≡◌, refl, Bool, true, List, [], ◌∷◌, if◌then◌else◌, Option, none, some,
}
use opencode_orchestrator.Prelude.Result.{Result, ok, err}
use opencode_orchestrator.Text.{Text, codes, text_eq}
use opencode_orchestrator.Value.{Value, str, Fields, get}
use opencode_orchestrator.Task.Store.{TaskStore, StoreError, create, load}
use opencode_orchestrator.Wait.{
  new_coordinator, WaitCoordinator, WaitError, Clock, Holder, elsewhere, lock_taken, attach, enter,
}
use opencode_orchestrator.Wait.Exclusive.{IsExclusive}
use opencode_orchestrator.Wait.Entry.{enter_failed}
use opencode_orchestrator.Wait.Acts.{Reaches, starts, attaches, enters, Reaches-IsExclusive}
use opencode_orchestrator.Wait.Repair.{no_process, pid_is_alive, start}
use opencode_orchestrator.Wait.Repair.Stale.{IsRepairedStore}
use opencode_orchestrator.Wait.Repair.Start.{start-IsRepairedStore}
use opencode_orchestrator.Wait.Run.{running}

abbrev id : Text
id = codes "oc-1"

abbrev clock : Clock
clock = record { at = codes "t1"; now = codes "t2"; pid = 7; free = λ _. true }

abbrev store_of : Result StoreError (Fields × TaskStore) → TaskStore
store_of (ok (_, s)) = s
store_of (err _) = record { states = λ _. none }

abbrev one_task : TaskStore
one_task = store_of (
    create (codes "t0") (record { states = λ _. none }) id (codes "/repo") (codes "abc")
      (codes "main") (codes "clean"))

abbrev or_else : WaitCoordinator → Result WaitError WaitCoordinator → WaitCoordinator
or_else c (ok c') = c'
or_else c (err _) = c

abbrev first : WaitCoordinator
first = or_else (new_coordinator one_task) (attach (new_coordinator one_task) 0 id (codes "a"))

abbrev second : WaitCoordinator
second = or_else first (attach first 1 id (codes "b"))

abbrev entered : WaitCoordinator
entered = (enter clock second 0).1

entered-Reaches : Reaches entered
unfolding running new_coordinator
entered-Reaches =
    enters clock 0
      (attaches 1 id (codes "b") (attaches 0 id (codes "a") (starts one_task refl) refl refl) refl
        refl)
      refl

Reaches-IsExclusive_example : IsExclusive entered
Reaches-IsExclusive_example = Reaches-IsExclusive {c = entered} entered-Reaches

enter_failed_example : (enter clock entered 1).1 ≡ entered
unfolding running new_coordinator
enter_failed_example =
    enter_failed clock entered 1 {e = lock_taken} {c' = (enter clock entered 1).1}
      Reaches-IsExclusive_example refl

-- no process is there any more
abbrev alive : Value → Bool
alive = pid_is_alive (λ _. no_process)

-- the task as the first waiter left it
abbrev lost : TaskStore
lost = entered.store

abbrev tasks : List (Text × Clock)
tasks = (id, clock) ∷ []

-- another process holds the wait lock of a second task
abbrev locks : Text → Option Holder
locks t = if text_eq t (codes "oc-2") then some elsewhere else none

start-IsRepairedStore_example :
    ((start alive lost locks tasks).1
      ≡ record (new_coordinator (start alive lost locks tasks).1.store) { wait_locks = locks })
    × IsRepairedStore alive lost (start alive lost locks tasks).1.store
    × ((t : Text) (h : Holder)
        → locks t ≡ some h
        → (start alive lost locks tasks).1.store.states t ≡ lost.states t)
start-IsRepairedStore_example = start-IsRepairedStore alive lost locks tasks

abbrev state_in : Result StoreError Fields → Option Value
state_in (ok state) = get (codes "wait_state") state
state_in (err e) = none

lost_lem : state_in (load lost id) ≡ some (str (codes "ATTACHED"))
unfolding running
lost_lem = refl

start_lem :
    state_in (load (start alive lost locks tasks).1.store id) ≡ some (str (codes "DETACHED"))
unfolding running
start_lem = refl

-- the repair passes over a task whose lock another process holds
start_held :
    state_in (load (start alive lost (λ t. some elsewhere) tasks).1.store id)
    ≡ some (str (codes "ATTACHED"))
unfolding running
start_held = refl
