-- ===== src/Wait/Repair/Stale.antt =====
-- What the repair in wait_coordinator.py touches: attached tasks whose owner is gone, and nothing else.
use opencode_orchestrator.Prelude.{
  ℕ, zero, suc, ◌≡◌, ◌≢◌, refl, sym, ap, subst, ◌∙◌, Bool, true, false, Option, none, some, ◌⊎◌,
  inl, inr, Bool-cases,
}
use opencode_orchestrator.Prelude.Result.{Result, ok, >>=-eq-ok}
use opencode_orchestrator.Text.{Text, codes, text_eq}
use opencode_orchestrator.Text.Laws.{text_eq-eq}
use opencode_orchestrator.Value.{Value, null, bool, int, float, str, arr, obj, Fields, get, put}
use opencode_orchestrator.Value.Laws.{get-put}
use opencode_orchestrator.Task.States.{attached, detached, wait_state_text}
use opencode_orchestrator.Task.Store.{
  TaskStore, StoreError, task_dir, load, stored, update, attempts, max_attempts, mutate,
}
use opencode_orchestrator.Task.Store.Files.{task_dir-IsName}
use opencode_orchestrator.Task.Store.Updates.{mutate-IsWritten}
use opencode_orchestrator.Wait.{WaitCoordinator, Clock, wait_of}
use opencode_orchestrator.Wait.Repair.{
  is_attached_state, value_or_none, owner_pid, repair_wait, repair,
}

attempts-ok :
    (left i : ℕ) (free : ℕ → Bool) (work : Result StoreError (Fields × TaskStore))
    {r : Fields × TaskStore}
    → attempts left i free work ≡ ok r
    → work ≡ ok r
unfolding attempts
attempts-ok zero i free work h = cc
attempts-ok (suc left) i free work h = elim (Bool-cases (free i)) [
  | inl now ↦ rw (now, attempts) at h
  | inr later ↦ attempts-ok left (suc i) free work (rw (later, attempts) at h)
]

load-states :
    (s : TaskStore) (task_id : Text) {state : Fields}
    → load s task_id ≡ ok state
    → s.states task_id ≡ some state
unfolding load
load-states s task_id {state} h =
    let (directory, e, k) = >>=-eq-ok (task_dir task_id) _ h in
    subst (λ d. s.states d ≡ some state) ((task_dir-IsName task_id e).0)
      (found (s.states directory) k)
  where
    found : (o : Option Fields) {state : Fields} → stored o ≡ ok state → o ≡ some state
    found none k = cc
    found (some st) k = cc (k)

-- the owner of a state's wait, as far as it has one
abbrev pub owner_of : Fields → Value
owner_of state = owner_in (get (codes "wait") state)
  where
    owner_in : Option Value → Value
    owner_in (some (obj wait)) = value_or_none (get (codes "owner_pid") wait)
    owner_in _ = null

-- a state that is attached, and whose owner is gone
abbrev pub IsStale : (Value → Bool) → Fields → Type 0
IsStale alive state =
    (get (codes "wait_state") state ≡ some (str (wait_state_text attached)))
    × (alive (owner_of state) ≡ false)

-- a state that says that its owner was stale
abbrev pub IsReleased : Fields → Type 0
IsReleased state =
    (get (codes "wait_state") state ≡ some (str (wait_state_text detached)))
    × (wait : Fields) × (get (codes "wait") state ≡ some (obj wait))
    × (get (codes "disconnect_reason") wait ≡ some (str (codes "stale-owner")))

-- what happens to one task: nothing, or a stale state is released
abbrev pub IsRepaired : (Value → Bool) → Option Fields → Option Fields → Type 0
IsRepaired alive before after =
    (after ≡ before)
    ⊎ ((old : Fields) × (new : Fields) × (before ≡ some old)
        × (after ≡ some new)
        × IsStale alive old
        × IsReleased new)

is_attached_state-eq :
    (o : Option Value) → is_attached_state o ≡ true → o ≡ some (str (wait_state_text attached))
unfolding is_attached_state
is_attached_state-eq (some (str s)) h =
    ap (λ t. some (str t)) (text_eq-eq s (wait_state_text attached) h)
is_attached_state-eq none h = cc
is_attached_state-eq (some null) h = cc
is_attached_state-eq (some (bool b)) h = cc
is_attached_state-eq (some (int n)) h = cc
is_attached_state-eq (some (float x)) h = cc
is_attached_state-eq (some (arr vs)) h = cc
is_attached_state-eq (some (obj fs)) h = cc

module _ (alive : Value → Bool) where
  repair_wait-IsReleased :
      (clock : Clock) (now : Text) (wait old : Fields)
      → alive (value_or_none (get (codes "owner_pid") wait)) ≡ false
      → IsReleased (put (codes "updated_at") (str now) (repair_wait alive clock wait old))
  unfolding repair_wait text_eq
  repair_wait-IsReleased clock now wait old gone =
      let reason = put (codes "disconnect_reason") (str (codes "stale-owner")) wait in
      let wait' = put (codes "detached_at") (str clock.at) reason in
      let inner = put (codes "wait") (obj wait') old in
      let outer = put (codes "wait_state") (str (wait_state_text detached)) inner in
      rw gone (
        get-put (codes "updated_at") (codes "wait_state") (str now) outer
            ∙ get-put (codes "wait_state") (codes "wait_state") (str (wait_state_text detached))
                inner,
        wait',
        get-put (codes "updated_at") (codes "wait") (str now) outer
            ∙ get-put (codes "wait_state") (codes "wait") (str (wait_state_text detached)) inner
            ∙ get-put (codes "wait") (codes "wait") (obj wait') old,
        get-put (codes "detached_at") (codes "disconnect_reason") (str clock.at) reason
            ∙ get-put (codes "disconnect_reason") (codes "disconnect_reason")
                (str (codes "stale-owner")) wait,
      )

  -- the wait of a state whose owner was found gone, and the owner
  gone_wait :
      (old : Fields) {pid : Value}
      → owner_pid (get (codes "wait") old) ≡ ok pid
      → alive pid ≡ false
      → (wait : Fields) × (wait_of (get (codes "wait") old) ≡ ok wait)
        × (alive (value_or_none (get (codes "owner_pid") wait)) ≡ false)
        × (alive (owner_of old) ≡ false)
  unfolding owner_pid get
  gone_wait old {pid} h gone = go (get (codes "wait") old) refl h
    where
      go :
          (o : Option Value)
          → get (codes "wait") old ≡ o
          → owner_pid o ≡ ok pid
          → (wait : Fields) × (wait_of (get (codes "wait") old) ≡ ok wait)
            × (alive (value_or_none (get (codes "owner_pid") wait)) ≡ false)
            × (alive (owner_of old) ≡ false)
      go none e h = rw e (
        _,
        refl,
        subst (λ v. alive v ≡ false) (cc (h)) gone,
        subst (λ v. alive v ≡ false) (cc (h)) gone,
      )
      go (some (obj wait)) e h = rw e (
        wait,
        refl,
        subst (λ v. alive v ≡ false) (cc (h)) gone,
        subst (λ v. alive v ≡ false) (cc (h)) gone,
      )
      go (some null) e h = cc
      go (some (bool b)) e h = cc
      go (some (int n)) e h = cc
      go (some (float x)) e h = cc
      go (some (str s)) e h = cc
      go (some (arr vs)) e h = cc

-- every task is repaired, or as it was
abbrev pub IsRepairedStore : (Value → Bool) → TaskStore → TaskStore → Type 0
IsRepairedStore alive s s' = (t : Text) → IsRepaired alive (s.states t) (s'.states t)

attached-ne-detached :
    (o : Option Value)
    → o ≡ some (str (wait_state_text detached))
    → o ≢ some (str (wait_state_text attached))
unfolding is_attached_state text_eq
attached-ne-detached o p q = let e : false ≡ true = ap is_attached_state (sym p ∙ q) in cc (e)

-- one repair after another
pub IsRepaired-trans :
    (alive : Value → Bool) (a b c : Option Fields)
    → IsRepaired alive a b
    → IsRepaired alive b c
    → IsRepaired alive a c
IsRepaired-trans alive a b c (inl e) h = subst (λ o. IsRepaired alive o c) e h
IsRepaired-trans alive a b c (inr h) (inl e) = subst (λ o. IsRepaired alive a o) (sym e) (inr h)
IsRepaired-trans alive a b c (inr (_, new, _, is_new, _, released))
      (inr (old, _, is_old, _, stale, _)) =
    let same : new ≡ old = cc (is_new, is_old) in
    absurd (
      attached-ne-detached (get (codes "wait_state") new) released.0 (
        subst (λ f. get (codes "wait_state") f ≡ some (str (wait_state_text attached))) (sym same)
          stale.0))

module _ (alive : Value → Bool) (clock : Clock) (c : WaitCoordinator) (task_id : Text)
    (old : Fields) (is_old : load c.store task_id ≡ ok old)
    (on : is_attached_state (get (codes "wait_state") old) ≡ true) where
  repair-wait :
      (wait : Fields)
      → wait_of (get (codes "wait") old) ≡ ok wait
      → repair alive clock old ≡ ok (repair_wait alive clock wait old)
  unfolding repair
  repair-wait wait e = rw (on, e) refl

  pub update-IsRepairedStore :
      {pid : Value} {state : Fields} {s' : TaskStore}
      → owner_pid (get (codes "wait") old) ≡ ok pid
      → alive pid ≡ false
      → update clock.now c.store clock.free task_id (repair alive clock) ≡ ok (state, s')
      → IsRepairedStore alive c.store s'
  unfolding update
  update-IsRepairedStore {pid} {state} {s'} owned gone h t =
      let (directory, _, k) = >>=-eq-ok (task_dir task_id) _ h in
      let done =
        attempts-ok max_attempts 0 clock.free
          (mutate clock.now c.store task_id (repair alive clock)) k in
      let (old', new, loaded, mutated, is_state, w) =
        mutate-IsWritten clock.now c.store task_id (repair alive clock) done in
      let (wait, is_wait, dead, dead') = gone_wait alive old owned gone in
      let same : old' ≡ old = cc (loaded, is_old) in
      let is_new : repair_wait alive clock wait old ≡ new =
        cc (repair-wait wait is_wait, mutated, same) in
      elim (Bool-cases (text_eq task_id t)) [
        | inl e ↦
            subst (λ u. IsRepaired alive (c.store.states u) (s'.states u)) (text_eq-eq task_id t e)
              (inr (
                old,
                state,
                load-states c.store task_id is_old,
                load-states s' task_id w.loads,
                (is_attached_state-eq (get (codes "wait_state") old) on, dead'),
                subst IsReleased (sym is_state) (
                    subst (λ f. IsReleased (put (codes "updated_at") (str clock.now) f)) is_new
                      (repair_wait-IsReleased alive clock clock.now wait old dead)),
              ))
        | inr e ↦ inl (w.others t e)
      ]

-- the repair writes the state of its task alone
pub update_others :
    (alive : Value → Bool) (clock : Clock) (s : TaskStore) (task_id : Text) {state : Fields}
    {s' : TaskStore}
    → update clock.now s clock.free task_id (repair alive clock) ≡ ok (state, s')
    → (t : Text) → text_eq task_id t ≡ false
    → s'.states t ≡ s.states t
unfolding update
update_others alive clock s task_id h =
    let (directory, _, k) = >>=-eq-ok (task_dir task_id) _ h in
    let (_, _, _, _, _, w) =
      mutate-IsWritten clock.now s task_id (repair alive clock) (
        attempts-ok max_attempts 0 clock.free (mutate clock.now s task_id (repair alive clock))
          k) in
    w.others
