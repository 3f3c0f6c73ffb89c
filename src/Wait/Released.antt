-- ===== src/Wait/Released.antt =====
-- A waiter that leaves, in wait_coordinator.py: the others are as they were.
use opencode_orchestrator.Prelude.{
  ℕ, ◌≡◌, ◌≢◌, refl, sym, ap, subst, true, false, none, some, ◌==◌, ==_iff, inl, inr,
}
use opencode_orchestrator.Text.{Text}
use opencode_orchestrator.Text.Laws.{text_eq_refl}
use opencode_orchestrator.Wait.{
  WaitLease, lease, WaitCoordinator, assign, assign_lease, forget, let_go,
}
use opencode_orchestrator.Wait.Tables.{
  assign_cases, assign_ne, assign_lease_cases, assign_lease_ne, text_ne, lease_ne,
}
use opencode_orchestrator.Wait.Exclusive.{IsExclusive}

module _ (c : WaitCoordinator) (v : IsExclusive c) (i : ℕ) (l : WaitLease)
    (is_i : c.leases i ≡ some l) (on : l.is_attached ≡ true) where
  -- the registries have the lease, so both of them forget it
  released : WaitCoordinator
  released = record c {
    by_task = assign l.task_id none c.by_task;
    by_request = assign l.request_id none c.by_request;
    leases = assign_lease i (record l { is_attached = false }) c.leases;
    wait_locks = assign l.task_id none c.wait_locks;
  }

  let_go-forget : let_go (forget c i l) i l ≡ released
  unfolding released let_go forget
  let_go-forget =
      let (a, b, _) = v.attached_owner i l is_i on in rw (a, b, (==_iff i i).1 refl) refl

  other_owner :
      (j : ℕ) (m : WaitLease)
      → (i == j) ≡ false
      → c.leases j ≡ some m
      → m.is_attached ≡ true
      → (l.task_id ≢ m.task_id) × (l.request_id ≢ m.request_id)
  other_owner j m apart e is_on =
      let (a, b, _) = v.attached_owner i l is_i on in
      let (a', b', _) = v.attached_owner j m e is_on in
      (
        λ same. cc (apart, (==_iff i j).1 (cc (a, a', ap c.by_task same))),
        λ same. cc (apart, (==_iff i j).1 (cc (b, b', ap c.by_request same))),
      )

  released-task_owner :
      (t : Text) (j : ℕ)
      → released.by_task t ≡ some j
      → (m : WaitLease) × (released.leases j ≡ some m) × (m.is_attached ≡ true) × (m.task_id ≡ t)
  unfolding released
  released-task_owner t j h = elim (assign_cases l.task_id t none c.by_task h) [
    | inl (_, e) ↦ cc
    | inr (apart, e) ↦
        let (m, is_m, is_on, of_t) = v.task_owner t j e in
        (
          m,
          assign_lease_ne i j _ c.leases
              (lease_ne i j (λ same. cc (apart, text_eq_refl l.task_id, is_i, is_m, same, of_t)))
              is_m,
          is_on,
          of_t,
        )
  ]

  released-request_owner :
      (q : Text) (j : ℕ)
      → released.by_request q ≡ some j
      → (m : WaitLease) × (released.leases j ≡ some m) × (m.is_attached ≡ true) × (m.request_id ≡ q)
  unfolding released
  released-request_owner q j h = elim (assign_cases l.request_id q none c.by_request h) [
    | inl (_, e) ↦ cc
    | inr (apart, e) ↦
        let (m, is_m, is_on, of_q) = v.request_owner q j e in
        (
          m,
          assign_lease_ne i j _ c.leases
              (lease_ne i j (λ same. cc (apart, text_eq_refl l.request_id, is_i, is_m, same, of_q)))
              is_m,
          is_on,
          of_q,
        )
  ]

  released-attached_owner :
      (j : ℕ) (m : WaitLease)
      → released.leases j ≡ some m
      → m.is_attached ≡ true
      → (released.by_task m.task_id ≡ some j)
        × (released.by_request m.request_id ≡ some j)
        × (released.wait_locks m.task_id ≡ some (lease j))
  unfolding released
  released-attached_owner j m h is_on =
      elim (assign_lease_cases i j (record l { is_attached = false }) c.leases h) [
        | inl (_, e) ↦ absurd (cc (ap (λ (k : WaitLease). k.is_attached) e, is_on))
        | inr (apart, e) ↦
            let (a, b, d) = v.attached_owner j m e is_on in
            let (by_task, by_request) = other_owner j m apart e is_on in
            (
              assign_ne l.task_id m.task_id _ c.by_task (text_ne _ _ by_task) a,
              assign_ne l.request_id m.request_id _ c.by_request (text_ne _ _ by_request) b,
              assign_ne l.task_id m.task_id _ c.wait_locks (text_ne _ _ by_task) d,
            )
      ]

  released-lock_owner :
      (t : Text) (j : ℕ) → released.wait_locks t ≡ some (lease j) → released.by_task t ≡ some j
  unfolding released
  released-lock_owner t j h = elim (assign_cases l.task_id t none c.wait_locks h) [
    | inl (_, e) ↦ cc
    | inr (apart, e) ↦ assign_ne l.task_id t _ c.by_task apart (v.lock_owner t j e)
  ]

  pub released-IsExclusive : IsExclusive (let_go (forget c i l) i l)
  released-IsExclusive = subst IsExclusive (sym let_go-forget) (record {
    task_owner = released-task_owner;
    request_owner = released-request_owner;
    attached_owner = released-attached_owner;
    lock_owner = released-lock_owner;
  })
