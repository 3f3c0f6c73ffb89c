-- ===== src/Task/Examples.antt =====
-- Runs of task_state.py on small inputs: a task that is created and moved, up to its integration.
use opencode_orchestrator.Prelude.{◌≡◌, refl, arith, List, [], ◌∷◌, none, some, All, ◌==◌}
use opencode_orchestrator.Prelude.Result.{Result, ok, err}
use opencode_orchestrator.Text.{Text, codes}
use opencode_orchestrator.Value.{str, Fields, end, get, put}
use opencode_orchestrator.Task.Phase.{
  Phase, phase_text, draft, risk_check, preparing, dispatched, running, collecting, reviewing,
  passed, awaiting_integration,
}
use opencode_orchestrator.Task.Store.{
  TaskStore, StoreError, file_exists, create, transition, mutate, update,
}
use opencode_orchestrator.Task.Store.Files.{IsWritten, create-IsWritten}
use opencode_orchestrator.Task.Store.Transitions.{IsMoved, transition-IsMoved}
use opencode_orchestrator.Task.Store.Updates.{update_free}
use opencode_orchestrator.Task.Store.History.{Lives, created, moved, Held, integration_needs_review}
use opencode_orchestrator.Task.Run.{running as task_running}

abbrev id : Text
id = codes "oc-1"

abbrev empty_store : TaskStore
empty_store = record { states = λ _. none }

abbrev outcome : Result StoreError (Fields × TaskStore) → Fields × TaskStore
outcome (ok p) = p
outcome (err e) = (end, empty_store)

abbrev t0 : Text
t0 = codes "2026-01-01T00:00:00+00:00"

abbrev create_in : TaskStore → Result StoreError (Fields × TaskStore)
create_in s = create t0 s id (codes "/repo") (codes "abc") (codes "main") (codes "clean")

abbrev move_in : Phase → TaskStore → Result StoreError (Fields × TaskStore)
move_in p s = transition t0 s id (phase_text p) end

-- the task that was created, and then moved through the phases, the last one first
abbrev after : List Phase → Fields × TaskStore
after [] = outcome (create_in empty_store)
after (p ∷ ps) = outcome (move_in p (after ps).1)

created-Lives : Lives id (after []).1
unfolding task_running
created-Lives =
    created empty_store (after []).0 t0 (codes "/repo") (codes "abc") (codes "main") (codes "clean")
      refl

moved-Lives :
    (p : Phase) (ps : List Phase)
    → Lives id (after ps).1
    → move_in p (after ps).1 ≡ ok (after (p ∷ ps))
    → Lives id (after (p ∷ ps)).1
unfolding task_running
moved-Lives p ps l h = moved (after (p ∷ ps)).0 t0 (phase_text p) end l refl h

abbrev way : List Phase
way = passed ∷ reviewing ∷ collecting ∷ running ∷ dispatched ∷ preparing ∷ risk_check ∷ []

passed-Lives : Lives id (after way).1
unfolding task_running
passed-Lives =
    moved-Lives passed (reviewing ∷ collecting ∷ running ∷ dispatched ∷ preparing ∷ risk_check ∷ [])
      (moved-Lives reviewing (collecting ∷ running ∷ dispatched ∷ preparing ∷ risk_check ∷ [])
        (moved-Lives collecting (running ∷ dispatched ∷ preparing ∷ risk_check ∷ [])
          (moved-Lives running (dispatched ∷ preparing ∷ risk_check ∷ [])
            (moved-Lives dispatched (preparing ∷ risk_check ∷ [])
              (moved-Lives preparing (risk_check ∷ [])
                (moved-Lives risk_check [] created-Lives refl) refl)
              refl)
            refl)
          refl)
        refl)
      refl

abbrev last : Fields × TaskStore
last = after (awaiting_integration ∷ way)

last-Lives : Lives id last.1
unfolding task_running
last-Lives = moved-Lives awaiting_integration way passed-Lives refl

integration_needs_review_example :
    All
      (Held last-Lives)
      (passed ∷ reviewing ∷ collecting ∷ dispatched ∷ preparing ∷ risk_check ∷ [])
unfolding task_running
integration_needs_review_example =
    integration_needs_review {task_id = id} {s = last.1} {state = last.0} last-Lives refl refl

transition-IsMoved_example :
    IsMoved t0
      (after []).1
      id
      (phase_text risk_check)
      end
      (after (risk_check ∷ [])).0
      (after (risk_check ∷ [])).1
unfolding task_running
transition-IsMoved_example = transition-IsMoved t0 (after []).1 id (phase_text risk_check) end refl

create-IsWritten_example :
    IsWritten empty_store id (after []).0 (after []).1
    × (get (codes "phase") (after []).0 ≡ some (str (phase_text draft)))
    × ((later : Text)
        → create later (after []).1 id (codes "/repo") (codes "abc") (codes "main") (codes "clean")
          ≡ err file_exists)
unfolding task_running
create-IsWritten_example =
    create-IsWritten t0 empty_store id (codes "/repo") (codes "abc") (codes "main") (codes "clean")
      {state = (after []).0} {s' = (after []).1} refl

-- a mutator that notes the branch of the task
abbrev note_branch : Fields → Result StoreError Fields
note_branch state = ok (put (codes "branch") (str (codes "oc/1")) state)

update_free_example :
    update t0 (after []).1 (λ n. n == 50) id note_branch ≡ mutate t0 (after []).1 id note_branch
unfolding task_running
update_free_example =
    update_free t0 (after []).1 (λ n. n == 50) id note_branch 50 {directory = id} refl (omega arith)
      refl

abbrev noted : Fields × TaskStore
noted = outcome (mutate t0 (after []).1 id note_branch)
