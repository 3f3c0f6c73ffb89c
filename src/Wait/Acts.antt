-- ===== src/Wait/Acts.antt =====
-- `WaitCoordinator` in wait_coordinator.py through any history of its operations, and of other
-- processes that take and free the tasks' locks and write their states.
use opencode_orchestrator.Prelude.{
  ℕ, ◌≡◌, ◌≢◌, refl, ap, subst, ◌∙◌, true, false, not, Option, none, some, arith, ◌==◌, ==_iff,
  Bool-cases, inl, inr, if_ind,
}
use opencode_orchestrator.Prelude.Result.{Result, ok, err, >>=-eq-ok, require-eq-ok}
use opencode_orchestrator.Text.{Text, is_blank}
use opencode_orchestrator.Wait.{
  WaitLease, Holder, lease, elsewhere, WaitCoordinator, WaitError, Clock, assign, assign_lease,
  forget, let_go,
}
use opencode_orchestrator.Wait.Tables.{
  assign_cases, assign_ne, assign_lease_cases, assign_lease_ne, text_ne, lease_ne,
}
use opencode_orchestrator.Wait.Exclusive.{IsExclusive}
use opencode_orchestrator.Wait.Released.{released-IsExclusive}
use opencode_orchestrator.Value.{Fields}
use opencode_orchestrator.Task.Store.{TaskStore, StoreError, load, update}
use opencode_orchestrator.Cancellation.{CancellationToken, new_token, cancel}
use opencode_orchestrator.Wait.{
  new_coordinator, lift_store, attach, cancel_lease, cancel_registered, cancel_task,
  cancel_request_id, mark_detached, enter, finish_exit, exit_lease, exit,
}
use opencode_orchestrator.Wait.Entry.{store-IsExclusive, enter-IsExclusive}

pub exit-IsExclusive :
    (clock : Clock) (c : WaitCoordinator) (i : ℕ) → IsExclusive c → IsExclusive (exit clock c i).1
unfolding exit exit_lease finish_exit let_go
exit-IsExclusive clock c i v = go (c.leases i) refl
  where
    finished :
        (l : WaitLease) (r : Result StoreError (Fields × TaskStore))
        → c.leases i ≡ some l
        → l.is_attached ≡ true
        → IsExclusive (finish_exit (forget c i l) i l r).1
    finished l (ok (state, s)) e on = store-IsExclusive _ s (released-IsExclusive c v i l e on)
    finished l (err x) e on = released-IsExclusive c v i l e on

    go : (o : Option WaitLease) → c.leases i ≡ o → IsExclusive (exit_lease clock c i o).1
    go none e = v
    go (some l) e =
        if_ind (λ (r : Result WaitError Unit × WaitCoordinator). IsExclusive r.1)
          (not l.is_attached) _ _ (λ _. v)
          (λ on.
            finished l (update clock.now c.store clock.free l.task_id (mark_detached clock l.token))
              e (ground arith))

-- A lease's token changes, and nothing else.
module _ (c : WaitCoordinator) (v : IsExclusive c) (i : ℕ) (l : WaitLease) (t : CancellationToken)
    (is_i : c.leases i ≡ some l) where
  retokened : ℕ → Option WaitLease
  retokened = assign_lease i (record l { token = t }) c.leases

  kept :
      (j : ℕ) (m : WaitLease)
      → c.leases j ≡ some m
      → (m' : WaitLease) × (retokened j ≡ some m')
        × (m'.is_attached ≡ m.is_attached)
        × (m'.task_id ≡ m.task_id)
        × (m'.request_id ≡ m.request_id)
  unfolding retokened
  kept j m e = elim (Bool-cases (i == j)) [
    | inl same ↦
        let own : l ≡ m = cc (is_i, e, (==_iff i j).0 same) in
        (
          record l { token = t },
          rw same refl,
          ap (λ (k : WaitLease). k.is_attached) own,
          ap (λ (k : WaitLease). k.task_id) own,
          ap (λ (k : WaitLease). k.request_id) own,
        )
    | inr apart ↦ (m, assign_lease_ne i j _ c.leases apart e, refl, refl, refl)
  ]

  retokened-IsExclusive : IsExclusive (record c { leases = retokened })
  unfolding retokened
  retokened-IsExclusive = record {
    task_owner = λ k j h.
        let (m, is_m, on, of_t) = v.task_owner k j h in
        let (m', is_m', a, b, _) = kept j m is_m in (m', is_m', a ∙ on, b ∙ of_t);
    request_owner = λ k j h.
        let (m, is_m, on, of_q) = v.request_owner k j h in
        let (m', is_m', a, _, b) = kept j m is_m in (m', is_m', a ∙ on, b ∙ of_q);
    attached_owner = λ j m h on. elim (assign_lease_cases i j (record l { token = t }) c.leases h) [
      | inl (same, e) ↦
          subst
            (λ k.
              (c.by_task k.task_id ≡ some j)
              × (c.by_request k.request_id ≡ some j)
              × (c.wait_locks k.task_id ≡ some (lease j)))
            e
            (subst
              (λ k.
                (c.by_task l.task_id ≡ some k)
                × (c.by_request l.request_id ≡ some k)
                × (c.wait_locks l.task_id ≡ some (lease k)))
              same (v.attached_owner i l is_i (ap (λ (k : WaitLease). k.is_attached) e ∙ on)))
      | inr (_, e) ↦ v.attached_owner j m e on
    ];
    lock_owner = v.lock_owner;
  }

cancel_registered-IsExclusive :
    (c : WaitCoordinator) (o : Option ℕ) (reason : Text)
    → IsExclusive c
    → IsExclusive (cancel_registered c o reason).1
unfolding cancel_registered cancel_lease retokened
cancel_registered-IsExclusive c none reason v = v
cancel_registered-IsExclusive c (some i) reason v = go (c.leases i) refl
  where
    go : (o : Option WaitLease) → c.leases i ≡ o → IsExclusive (cancel_lease c i o reason).1
    go none e = v
    go (some l) e = retokened-IsExclusive c v i l (cancel l.token reason).1 e

new_lease : Text → Text → WaitLease
new_lease task_id request_id = record {
  task_id = task_id;
  request_id = request_id;
  token = new_token;
  is_attached = false;
}

attach-IsExclusive :
    (c : WaitCoordinator) (i : ℕ) (task_id request_id : Text)
    → IsExclusive c
    → c.leases i ≡ none
    → IsExclusive (record c { leases = assign_lease i (new_lease task_id request_id) c.leases })
unfolding new_lease
attach-IsExclusive c i task_id request_id v fresh = record {
  task_owner = λ t j h. let (m, is_m, on, of_t) = v.task_owner t j h in (m, old j m is_m, on, of_t);
  request_owner =
      λ q j h. let (m, is_m, on, of_q) = v.request_owner q j h in (m, old j m is_m, on, of_q);
  attached_owner = λ j m h on.
      elim (assign_lease_cases i j (new_lease task_id request_id) c.leases h) [
        | inl (same, e) ↦ absurd (cc (ap (λ (k : WaitLease). k.is_attached) e, on))
        | inr (_, e) ↦ v.attached_owner j m e on
      ];
  lock_owner = v.lock_owner;
}
  where
    old :
        (j : ℕ) (m : WaitLease)
        → c.leases j ≡ some m
        → assign_lease i (new_lease task_id request_id) c.leases j ≡ some m
    old j m e = assign_lease_ne i j _ c.leases (lease_ne i j (λ same. cc (fresh, e, same))) e

-- another process's hold on a task's lock: the lock was none of this process's, and is none after
relock-IsExclusive :
    (c : WaitCoordinator) (t : Text) (h : Option Holder)
    → IsExclusive c
    → ((j : ℕ) → c.wait_locks t ≢ some (lease j))
    → ((j : ℕ) → h ≢ some (lease j))
    → IsExclusive (record c { wait_locks = assign t h c.wait_locks })
relock-IsExclusive c t h v before after = record {
  task_owner = v.task_owner;
  request_owner = v.request_owner;
  attached_owner = λ j m e on.
      let (a, b, d) = v.attached_owner j m e on in
      (
        a,
        b,
        assign_ne t m.task_id h c.wait_locks
            (text_ne t m.task_id (λ same. before j (ap c.wait_locks same ∙ d))) d,
      );
  lock_owner = λ k j e. elim (assign_cases t k h c.wait_locks e) [
    | inl (_, q) ↦ absurd (after j q)
    | inr (_, q) ↦ v.lock_owner k j q
  ];
}

-- The states that a coordinator reaches. A new lease is a new object; `relocks` and `rewrites` are
-- the acts of other processes.
pub data Reaches : WaitCoordinator → Type 0 where
  starts : {c : WaitCoordinator} (s : TaskStore) → c ≡ new_coordinator s → Reaches c
  attaches :
      {c c' : WaitCoordinator} (i : ℕ) (task_id request_id : Text)
      → Reaches c
      → c.leases i ≡ none
      → attach c i task_id request_id ≡ ok c'
      → Reaches c'
  enters :
      {c c' : WaitCoordinator} (clock : Clock) (i : ℕ)
      → Reaches c
      → (enter clock c i).1 ≡ c'
      → Reaches c'
  exits :
      {c c' : WaitCoordinator} (clock : Clock) (i : ℕ)
      → Reaches c
      → (exit clock c i).1 ≡ c'
      → Reaches c'
  cancels_task :
      {c c' : WaitCoordinator} (task_id reason : Text)
      → Reaches c
      → (cancel_task c task_id reason).1 ≡ c'
      → Reaches c'
  cancels_request :
      {c c' : WaitCoordinator} (request_id reason : Text)
      → Reaches c
      → (cancel_request_id c request_id reason).1 ≡ c'
      → Reaches c'
  locks_elsewhere :
      {c c' : WaitCoordinator} (t : Text)
      → Reaches c
      → c.wait_locks t ≡ none
      → c' ≡ record c { wait_locks = assign t (some elsewhere) c.wait_locks }
      → Reaches c'
  frees_elsewhere :
      {c c' : WaitCoordinator} (t : Text)
      → Reaches c
      → c.wait_locks t ≡ some elsewhere
      → c' ≡ record c { wait_locks = assign t none c.wait_locks }
      → Reaches c'
  rewrites :
      {c c' : WaitCoordinator} (s : TaskStore)
      → Reaches c
      → c' ≡ record c { store = s }
      → Reaches c'

attached_new :
    (c : WaitCoordinator) (i : ℕ) (task_id request_id : Text) {c' : WaitCoordinator}
    → attach c i task_id request_id ≡ ok c'
    → c' ≡ record c { leases = assign_lease i (new_lease task_id request_id) c.leases }
unfolding attach new_lease
attached_new c i task_id request_id h =
    let (_, k) = require-eq-ok (not (is_blank request_id)) _ _ h in
    let (_, _, done) = >>=-eq-ok (lift_store (load c.store task_id)) _ k in cc (done)

-- In every state that a coordinator reaches, whatever its waiters and other processes do, and in
-- whatever order, the registries have exactly the attached leases, each under its own task and
-- request, and each attached lease holds its task's lock: a task never has two waiters.
pub Reaches-IsExclusive : {c : WaitCoordinator} → Reaches c → IsExclusive c
unfolding new_coordinator cancel_task cancel_request_id
Reaches-IsExclusive (starts s e) = rw e (record {
  task_owner = λ t i h. cc;
  request_owner = λ q i h. cc;
  attached_owner = λ i l h on. cc;
  lock_owner = λ t i h. cc;
})
Reaches-IsExclusive (attaches {c} i task_id request_id r fresh e) =
    rw (attached_new c i task_id request_id e)
      (attach-IsExclusive c i task_id request_id (Reaches-IsExclusive r) fresh)
Reaches-IsExclusive (enters {c} clock i r e) =
    subst IsExclusive e (enter-IsExclusive clock c i (Reaches-IsExclusive r))
Reaches-IsExclusive (exits {c} clock i r e) =
    subst IsExclusive e (exit-IsExclusive clock c i (Reaches-IsExclusive r))
Reaches-IsExclusive (cancels_task {c} task_id reason r e) =
    subst IsExclusive e
      (cancel_registered-IsExclusive c (c.by_task task_id) reason (Reaches-IsExclusive r))
Reaches-IsExclusive (cancels_request {c} request_id reason r e) =
    subst IsExclusive e
      (cancel_registered-IsExclusive c (c.by_request request_id) reason (Reaches-IsExclusive r))
Reaches-IsExclusive (locks_elsewhere {c} t r free e) =
    rw e (relock-IsExclusive c t (some elsewhere) (Reaches-IsExclusive r) (λ j h. cc) (λ j h. cc))
Reaches-IsExclusive (frees_elsewhere {c} t r taken e) =
    rw e (relock-IsExclusive c t none (Reaches-IsExclusive r) (λ j h. cc) (λ j h. cc))
Reaches-IsExclusive (rewrites {c} s r e) = rw e (store-IsExclusive c s (Reaches-IsExclusive r))
