-- ===== src/Task/Store/History.antt =====
-- The life of one task in the store of task_state.py: it is created, and then changed by transitions
-- and by updates that leave its phase alone.
use opencode_orchestrator.Prelude.{
  ◌≡◌, refl, sym, subst, ap, ◌∙◌, true, List, [], ◌∷◌, none, some, any, All, Some, any-Some, inl,
  inr, ◌⊎◌, All-map,
}
use opencode_orchestrator.Prelude.Result.{Result, ok}
use opencode_orchestrator.Text.{Text, codes, text_eq}
use opencode_orchestrator.Text.Laws.{text_eq-eq}
use opencode_orchestrator.Value.{str, Fields, get, put}
use opencode_orchestrator.Task.Phase.{
  Phase, draft, passed, reviewing, collecting, dispatched, preparing, risk_check,
  awaiting_integration, phase_text, row, may_follow, successors,
}
use opencode_orchestrator.Task.Phase.Graph.{
  ◌⟶◌, milestones, next_milestones, phase_of-phase_text, phase_text-injective,
}
use opencode_orchestrator.Task.Store.{StoreError, TaskStore, create, load, transition, mutate}
use opencode_orchestrator.Task.Store.Files.{create-IsWritten}
use opencode_orchestrator.Task.Store.Transitions.{
  IsMoved, transition-IsMoved, moved_phase, updated_phase,
}
use opencode_orchestrator.Task.Store.Updates.{mutate-IsWritten}

-- The stores in which the task has lived. The updates of a transition do not name the phase, and a
-- mutator leaves the phase as it is.
pub data Lives (task_id : Text) : TaskStore → Type 0 where
  created :
      (s : TaskStore) {s' : TaskStore} (state : Fields)
      (now repo_root base_sha branch fingerprint : Text)
      → create now s task_id repo_root base_sha branch fingerprint ≡ ok (state, s')
      → Lives task_id s'
  moved :
      {s s' : TaskStore} (state : Fields) (now phase : Text) (updates : Fields)
      → Lives task_id s
      → get (codes "phase") updates ≡ none
      → transition now s task_id phase updates ≡ ok (state, s')
      → Lives task_id s'
  kept :
      {s s' : TaskStore} (state : Fields) (now : Text) (mutator : Fields → Result StoreError Fields)
      → Lives task_id s
      → ((old new : Fields)
          → mutator old ≡ ok new
          → get (codes "phase") new ≡ get (codes "phase") old)
      → mutate now s task_id mutator ≡ ok (state, s')
      → Lives task_id s'

-- in this store the task is in the phase
pub record InPhase (task_id : Text) (s : TaskStore) (p : Phase) : Type 0 where
  pub state : Fields
  pub loads : load s task_id ≡ ok state
  pub is_in : get (codes "phase") state ≡ some (str (phase_text p))

-- in some store of its life the task was in the phase
abbrev pub Held : {task_id : Text} {s : TaskStore} → Lives task_id s → Phase → Type 0
Held {task_id} {s} (created _ _ _ _ _ _ _ _) p = InPhase task_id s p
Held {task_id} {s} (moved _ _ _ _ l _ _) p = InPhase task_id s p ⊎ Held l p
Held {task_id} {s} (kept _ _ _ l _ _) p = InPhase task_id s p ⊎ Held l p

-- The stored phase is one of the program's phases, and the task was in all of its milestones.
record HasPassed (task_id : Text) (s : TaskStore) (P : Phase → Type 0) : Type 0 where
  phase : Phase
  here : InPhase task_id s phase
  held : P phase
  before : All P (milestones phase)

row-phase :
    (qs : List Phase) (t : Text)
    → Some (λ q. text_eq (phase_text q) t ≡ true) qs
    → (q : Phase) × (phase_text q ≡ t) × Some (λ r. r ≡ q) qs
row-phase [] t h = absurd h
row-phase (q ∷ qs) t (inl e) = (q, text_eq-eq (phase_text q) t e, inl refl)
row-phase (q ∷ qs) t (inr h) = let (r, e, m) = row-phase qs t h in (r, e, inr m)

-- what follows a phase is a phase
may_follow-phase :
    (p : Phase) (t : Text)
    → may_follow (phase_text p) t ≡ true
    → (q : Phase) × (phase_text q ≡ t) × (p ⟶ q)
unfolding may_follow
may_follow-phase p t h = row-phase (successors p) t (
    any-Some (λ r. text_eq (phase_text r) t) (successors p)
      (subst (λ o. any (λ r. text_eq (phase_text r) t) (row o) ≡ true) (phase_of-phase_text p) h))

next-HasPassed :
    {task_id now phase : Text} {s s' : TaskStore} {state : Fields} {updates : Fields}
    {P : Phase → Type 0}
    → HasPassed task_id s P
    → IsMoved now s task_id phase updates state s'
    → get (codes "phase") state ≡ some (str phase)
    → HasPassed task_id s' (λ p. InPhase task_id s' p ⊎ P p)
next-HasPassed {task_id} {phase} {s'} {state} {P} h m e =
    let same : m.current ≡ phase_text h.phase =
      cc (m.loads_old, h.here.loads, m.was, h.here.is_in) in
    let (q, named, edge) =
      may_follow-phase h.phase phase (subst (λ c. may_follow c phase ≡ true) same m.allowed) in
    let now_in : InPhase task_id s' q = record {
      state = state;
      loads = m.written.loads;
      is_in = e ∙ ap (λ t. some (str t)) (sym named);
    } in
    record {
      phase = q;
      here = now_in;
      held = inl now_in;
      before =
          All-map P {Q = λ p. InPhase task_id s' p ⊎ P p} (λ p x. inr x) (milestones q)
            (next_milestones P h.phase q edge h.held h.before);
    }

kept_phase :
    (now : Text) (old new state : Fields) (t : Text)
    → state ≡ put (codes "updated_at") (str now) new
    → get (codes "phase") new ≡ get (codes "phase") old
    → get (codes "phase") old ≡ some (str t)
    → get (codes "phase") state ≡ some (str t)
kept_phase now old new state t saved same was = rw saved (updated_phase now new ∙ same ∙ was)

Lives-HasPassed :
    {task_id : Text} {s : TaskStore} (l : Lives task_id s) → HasPassed task_id s (Held l)
Lives-HasPassed {task_id} (created s state now repo_root base_sha branch fingerprint h) =
    let (written, is_draft, again) =
      create-IsWritten now s task_id repo_root base_sha branch fingerprint h in
    let here : InPhase task_id _ draft = record {
      state = state;
      loads = written.loads;
      is_in = is_draft;
    } in
    record { phase = draft; here = here; held = here; before = tt }
Lives-HasPassed {task_id} (moved state now phase updates l silent h) =
    let m = transition-IsMoved now _ task_id phase updates h in
    next-HasPassed (Lives-HasPassed l) m (moved_phase m silent)
Lives-HasPassed {task_id} (kept state now mutator l keeps h) =
    let (old, new, e, m, saved, written) = mutate-IsWritten now _ task_id mutator h in
    let w = Lives-HasPassed l in
    let here : InPhase task_id _ w.phase = record {
      state = state;
      loads = written.loads;
      is_in =
          kept_phase now old new state (phase_text w.phase) saved (keeps old new m)
            (cc (e, w.here.loads, w.here.is_in));
    } in
    record {
      phase = w.phase;
      here = here;
      held = inl here;
      before =
          All-map (Held l) {Q = λ p. InPhase task_id _ p ⊎ Held l p} (λ p x. inr x)
            (milestones w.phase) w.before;
    }

-- `transition` skips no review. Let a task be created, and then moved by transitions whose updates do
-- not name the phase, and written by mutators that keep it, in any order. If in the last store it waits
-- for its integration, then earlier in its life the store held it in the phase `PASSED`, in a review,
-- in the collection of its results, dispatched, in its preparation and in the risk check. A mutator
-- that sets the phase itself, as service.py has them, is outside this statement.
pub integration_needs_review :
    {task_id : Text} {s : TaskStore} {state : Fields} (l : Lives task_id s)
    → load s task_id ≡ ok state
    → get (codes "phase") state ≡ some (str (phase_text awaiting_integration))
    → All (Held l) (passed ∷ reviewing ∷ collecting ∷ dispatched ∷ preparing ∷ risk_check ∷ [])
integration_needs_review l e at_end =
    let h = Lives-HasPassed l in
    let same : h.phase ≡ awaiting_integration =
      phase_text-injective h.phase awaiting_integration (cc (e, h.here.loads, h.here.is_in)) in
    subst (λ q. All (Held l) (milestones q)) same h.before
