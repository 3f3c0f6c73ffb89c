-- ===== src/Wait/Exclusive.antt =====
-- At most one waiter: what holds of `WaitCoordinator` in wait_coordinator.py after each of its
-- operations.
use opencode_orchestrator.Prelude.{
  ℕ, ◌≡◌, refl, ap, subst, ◌∙◌, true, false, none, some, ◌==◌, inl, inr,
}
use opencode_orchestrator.Text.{Text, text_eq}
use opencode_orchestrator.Wait.{WaitLease, lease, WaitCoordinator, assign, register}
use opencode_orchestrator.Wait.Tables.{
  assign_self, assign_cases, assign_ne, assign_lease_self, assign_lease_cases, assign_lease_ne,
  text_ne, lease_ne,
}

-- The registries have the attached leases, each under its task and its request; an attached lease
-- holds its task's lock, and no other lease of this process does.
pub record IsExclusive (c : WaitCoordinator) : Type 0 where
  pub task_owner :
      (t : Text) (i : ℕ)
      → c.by_task t ≡ some i
      → (l : WaitLease) × (c.leases i ≡ some l) × (l.is_attached ≡ true) × (l.task_id ≡ t)
  pub request_owner :
      (q : Text) (i : ℕ)
      → c.by_request q ≡ some i
      → (l : WaitLease) × (c.leases i ≡ some l) × (l.is_attached ≡ true) × (l.request_id ≡ q)
  pub attached_owner :
      (i : ℕ) (l : WaitLease)
      → c.leases i ≡ some l
      → l.is_attached ≡ true
      → (c.by_task l.task_id ≡ some i)
        × (c.by_request l.request_id ≡ some i)
        × (c.wait_locks l.task_id ≡ some (lease i))
  pub lock_owner : (t : Text) (i : ℕ) → c.wait_locks t ≡ some (lease i) → c.by_task t ≡ some i

module _ (c : WaitCoordinator) (v : IsExclusive c) (i : ℕ) (l : WaitLease)
    (is_i : c.leases i ≡ some l) where
  -- a lease that is not attached enters: its task's lock is free, and its request is not registered
  module _ (off : l.is_attached ≡ false) (free : c.wait_locks l.task_id ≡ none)
      (unknown : c.by_request l.request_id ≡ none) where
    abbrev pub entered : WaitCoordinator
    entered =
        register (record c { wait_locks = assign l.task_id (some (lease i)) c.wait_locks }) i l

    other_lease :
        (j : ℕ) (m : WaitLease) → c.leases j ≡ some m → m.is_attached ≡ true → (i == j) ≡ false
    other_lease j m e on = lease_ne i j (λ same. cc (off, on, is_i, e, same))

    entered-task_owner :
        (t : Text) (j : ℕ)
        → entered.by_task t ≡ some j
        → (m : WaitLease) × (entered.leases j ≡ some m) × (m.is_attached ≡ true) × (m.task_id ≡ t)
    unfolding register
    entered-task_owner t j h = elim (assign_cases l.task_id t (some i) c.by_task h) [
      | inl (same, e) ↦ (
        record l { is_attached = true },
        subst (λ k. entered.leases k ≡ some (record l { is_attached = true })) (cc e)
            (assign_lease_self i (record l { is_attached = true }) c.leases),
        refl,
        same,
      )
      | inr (_, e) ↦
          let (m, is_m, on, of_t) = v.task_owner t j e in
          (m, assign_lease_ne i j _ c.leases (other_lease j m is_m on) is_m, on, of_t)
    ]

    entered-request_owner :
        (q : Text) (j : ℕ)
        → entered.by_request q ≡ some j
        → (m : WaitLease) × (entered.leases j ≡ some m)
          × (m.is_attached ≡ true)
          × (m.request_id ≡ q)
    unfolding register
    entered-request_owner q j h = elim (assign_cases l.request_id q (some i) c.by_request h) [
      | inl (same, e) ↦ (
        record l { is_attached = true },
        subst (λ k. entered.leases k ≡ some (record l { is_attached = true })) (cc e)
            (assign_lease_self i (record l { is_attached = true }) c.leases),
        refl,
        same,
      )
      | inr (_, e) ↦
          let (m, is_m, on, of_q) = v.request_owner q j e in
          (m, assign_lease_ne i j _ c.leases (other_lease j m is_m on) is_m, on, of_q)
    ]

    entered-attached_owner :
        (j : ℕ) (m : WaitLease)
        → entered.leases j ≡ some m
        → m.is_attached ≡ true
        → (entered.by_task m.task_id ≡ some j)
          × (entered.by_request m.request_id ≡ some j)
          × (entered.wait_locks m.task_id ≡ some (lease j))
    unfolding register
    entered-attached_owner j m h on =
        elim (assign_lease_cases i j (record l { is_attached = true }) c.leases h) [
          | inl (same, e) ↦
              subst
                (λ k.
                  (entered.by_task k.task_id ≡ some j)
                  × (entered.by_request k.request_id ≡ some j)
                  × (entered.wait_locks k.task_id ≡ some (lease j)))
                e
                (
                  assign_self l.task_id (some i) c.by_task ∙ ap (λ k. some k) same,
                  assign_self l.request_id (some i) c.by_request ∙ ap (λ k. some k) same,
                  assign_self l.task_id (some (lease i)) c.wait_locks
                      ∙ ap (λ k. some (lease k)) same,
                )
          | inr (_, e) ↦
              let (a, b, d) = v.attached_owner j m e on in
              let apart : text_eq l.task_id m.task_id ≡ false =
                text_ne l.task_id m.task_id (λ same. cc (ap c.wait_locks same, free, d)) in
              (
                assign_ne l.task_id m.task_id _ c.by_task apart a,
                assign_ne l.request_id m.request_id _ c.by_request
                    (text_ne l.request_id m.request_id
                      (λ same. cc (ap c.by_request same, unknown, b)))
                    b,
                assign_ne l.task_id m.task_id _ c.wait_locks apart d,
              )
        ]

    entered-lock_owner :
        (t : Text) (j : ℕ) → entered.wait_locks t ≡ some (lease j) → entered.by_task t ≡ some j
    unfolding register
    entered-lock_owner t j h = elim (assign_cases l.task_id t (some (lease i)) c.wait_locks h) [
      | inl (same, e) ↦
          subst (λ k. assign l.task_id (some i) c.by_task k ≡ some j) same
            (assign_self l.task_id (some i) c.by_task ∙ cc e)
      | inr (apart, e) ↦ assign_ne l.task_id t _ c.by_task apart (v.lock_owner t j e)
    ]

    pub entered-IsExclusive : IsExclusive entered
    entered-IsExclusive = record {
      task_owner = entered-task_owner;
      request_owner = entered-request_owner;
      attached_owner = entered-attached_owner;
      lock_owner = entered-lock_owner;
    }
