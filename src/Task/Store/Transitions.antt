-- ===== src/Task/Store/Transitions.antt =====
-- `transition` of task_state.py, and the phases that a task goes through in the store.
use opencode_orchestrator.Prelude.{
  ◌≡◌, refl, ◌∙◌, true, false, Option, none, some, arith, Bool-cases, inl, inr, ap, if◌then◌else◌,
}
use opencode_orchestrator.Prelude.Result.{ok, err, >>=-eq-ok}
use opencode_orchestrator.Text.{Text, codes, text_eq}
use opencode_orchestrator.Text.Laws.{text_eq_refl}
use opencode_orchestrator.Value.{Value, null, str, Fields, end, field, get, put}
use opencode_orchestrator.Value.Laws.{get-put}
use opencode_orchestrator.Task.Phase.{may_follow}
use opencode_orchestrator.Task.Store.{
  TaskStore, load, save, phase_allows, put_all, transition, invalid_transition,
}
use opencode_orchestrator.Task.Store.Files.{IsWritten, save-IsWritten}

-- the last value that the updates give to a key
abbrev pub updated : Text → Fields → Option Value
updated k end = none
updated k (field j v rest) = elim (updated k rest) [
  | some w ↦ some w
  | none ↦ if text_eq j k then some v else none
]

abbrev pub or_old : Option Value → Option Value → Option Value
or_old (some v) old = some v
or_old none old = old

get-put_all :
    (k : Text) (updates state : Fields)
    → get k (put_all updates state) ≡ or_old (updated k updates) (get k state)
unfolding put_all get
get-put_all k end state = refl
get-put_all k (field j v rest) state =
    get-put_all k rest (put j v state)
    ∙ later (updated k rest) (ap (or_old (updated k rest)) (get-put j k v state))
  where
    later :
        (o : Option Value)
        → or_old o (get k (put j v state)) ≡ or_old o (if text_eq j k then some v else get k state)
        → or_old o (get k (put j v state))
          ≡ or_old
              (elim o [ some w ↦ some w | none ↦ if text_eq j k then some v else none ])
              (get k state)
    later (some w) e = refl
    later none e = ground (arith, e)

-- A transition that returns: the stored phase was a text whose row of the table has the new phase, and
-- the new state has, under each key, the time of the write, what the updates give, the new phase, or
-- what the old state has.
pub record IsMoved (now : Text) (s : TaskStore) (task_id phase : Text) (updates state : Fields)
    (s' : TaskStore) : Type 0 where
  pub old : Fields
  pub loads_old : load s task_id ≡ ok old
  pub current : Text
  pub was : get (codes "phase") old ≡ some (str current)
  pub allowed : may_follow current phase ≡ true
  pub stamped : get (codes "updated_at") state ≡ some (str now)
  pub changed :
      (k : Text)
      → text_eq (codes "updated_at") k ≡ false
      → get k state
        ≡ or_old
            (updated k updates)
            (if text_eq (codes "phase") k then some (str phase) else get k old)
  pub written : IsWritten s task_id state s'

phase_allows-ok :
    (o : Option Value) (phase : Text)
    → phase_allows o phase ≡ ok tt
    → (current : Text) × (o ≡ some (str current)) × (may_follow current phase ≡ true)
unfolding phase_allows
phase_allows-ok none phase h = cc
phase_allows-ok (some (str current)) phase h = (current, refl, ground arith)
phase_allows-ok (some null) phase h = cc
phase_allows-ok (some _) phase h = cc

transition-parts :
    (now : Text) (s : TaskStore) (task_id phase : Text) (updates : Fields) {r : Fields × TaskStore}
    → transition now s task_id phase updates ≡ ok r
    → (old : Fields) × (load s task_id ≡ ok old)
      × (phase_allows (get (codes "phase") old) phase ≡ ok tt)
      × (save now s task_id (put_all updates (put (codes "phase") (str phase) old)) ≡ ok r)
unfolding transition
transition-parts now s task_id phase updates h =
    let (old, e, k) = >>=-eq-ok (load s task_id) _ h in
    let (u, a, w) = >>=-eq-ok (phase_allows (get (codes "phase") old) phase) _ k in (old, e, a, w)

get-put_self : (k : Text) (v : Value) (fs : Fields) → get k (put k v fs) ≡ some v
get-put_self k v fs = rw (get-put, text_eq_refl k)

pub updated_phase :
    (now : Text) (state : Fields)
    → get (codes "phase") (put (codes "updated_at") (str now) state) ≡ get (codes "phase") state
updated_phase now state =
    get-put (codes "updated_at") (codes "phase") (str now) state ∙ unfold text_eq in refl

below_stamp :
    (now k : Text) (state : Fields)
    → text_eq (codes "updated_at") k ≡ false
    → (if text_eq (codes "updated_at") k then some (str now) else get k state) ≡ get k state
below_stamp now k state other = rw other refl

-- A transition that returns took the table's way: the stored phase was a text whose row has the new
-- phase. The new state is stored, and no other task is touched. It has the time of the write under
-- `updated_at`; under every other key it has what the updates give; where they give nothing, the new
-- phase under `phase`, and what the old state has under the others.
pub transition-IsMoved :
    (now : Text) (s : TaskStore) (task_id phase : Text) (updates : Fields) {state : Fields}
    {s' : TaskStore}
    → transition now s task_id phase updates ≡ ok (state, s')
    → IsMoved now s task_id phase updates state s'
transition-IsMoved now s task_id phase updates {state} {s'} h =
    let (old, e, a, w) = transition-parts now s task_id phase updates h in
    let (current, was, allowed) = phase_allows-ok (get (codes "phase") old) phase a in
    let moved = put (codes "phase") (str phase) old in
    let (saved, written) = save-IsWritten now s task_id (put_all updates moved) w in
    record {
      old = old;
      loads_old = e;
      current = current;
      was = was;
      allowed = allowed;
      stamped = rw saved (get-put_self (codes "updated_at") (str now) (put_all updates moved));
      changed = λ k other. rw saved (
          get-put (codes "updated_at") k (str now) (put_all updates moved)
          ∙ below_stamp now k (put_all updates moved) other
          ∙ get-put_all k updates moved
          ∙ ap (or_old (updated k updates)) (get-put (codes "phase") k (str phase) old));
      written = written;
    }

silent_updated : (k : Text) (updates : Fields) → get k updates ≡ none → updated k updates ≡ none
unfolding get
silent_updated k end h = refl
silent_updated k (field j v rest) h = elim (Bool-cases (text_eq j k)) [
  | inl hit ↦ cc (rw hit at h)
  | inr miss ↦ rw (silent_updated k rest (rw miss at h), miss) refl
]

-- Unless the updates name the phase, the task that a transition returns is in the new phase.
pub moved_phase :
    {now : Text} {s : TaskStore} {task_id phase : Text} {updates state : Fields} {s' : TaskStore}
    → IsMoved now s task_id phase updates state s'
    → get (codes "phase") updates ≡ none
    → get (codes "phase") state ≡ some (str phase)
unfolding text_eq
moved_phase {phase} {updates} m silent =
    m.changed (codes "phase") refl
    ∙ ap (λ o. or_old o (some (str phase))) (silent_updated (codes "phase") updates silent)

-- A phase outside the row of the stored one is refused, and nothing is written: there is no new store.
pub transition_refused :
    (now : Text) (s : TaskStore) (task_id phase current : Text) (updates old : Fields)
    → load s task_id ≡ ok old
    → get (codes "phase") old ≡ some (str current)
    → may_follow current phase ≡ false
    → transition now s task_id phase updates ≡ err invalid_transition
unfolding transition phase_allows
transition_refused now s task_id phase current updates old e was barred = rw (e, was, barred)
