-- ===== src/Wait/Tables.antt =====
-- The registries of wait_coordinator.py as tables: reads after writes.
use mathlib.Core.Path.{fun_ext}
use opencode_orchestrator.Prelude.{
  ℕ, ◌≡◌, ◌≢◌, refl, sym, ap, subst, Bool, false, Option, none, some, arith, ◌==◌, ==_iff,
  Bool-cases, inl, inr, ◌⊎◌,
}
use opencode_orchestrator.Text.{Text, text_eq}
use opencode_orchestrator.Text.Laws.{text_eq-eq, text_eq_refl}
use opencode_orchestrator.Wait.{WaitLease, assign, assign_lease}

module _ {A : Type 0} where
  pub assign_self : (k : Text) (v : Option A) (f : Text → Option A) → assign k v f k ≡ v
  assign_self k v f = rw (text_eq_refl k) refl

  -- a value that is assigned and deleted again leaves the table as it was
  pub assign_undo :
      (k : Text) (v : Option A) (f : Text → Option A)
      → f k ≡ none
      → assign k none (assign k v f) ≡ f
  assign_undo k v f h = fun_ext λ t. elim (Bool-cases (text_eq k t)) [
    | inl e ↦ rw e (sym (subst (λ x. f x ≡ none) (text_eq-eq k t e) h))
    | inr e ↦ rw e refl
  ]

pub assign_lease_self :
    (i : ℕ) (l : WaitLease) (f : ℕ → Option WaitLease) → assign_lease i l f i ≡ some l
assign_lease_self i l f = ground arith

pub assign_lease_same :
    (i : ℕ) (l : WaitLease) (f : ℕ → Option WaitLease) → f i ≡ some l → assign_lease i l f ≡ f
assign_lease_same i l f h = fun_ext λ j. elim (Bool-cases (i == j)) [
  | inl e ↦ rw e (sym (subst (λ x. f x ≡ some l) ((==_iff i j).0 e) h))
  | inr e ↦ rw e refl
]

pub assign_lease_twice :
    (i : ℕ) (l m : WaitLease) (f : ℕ → Option WaitLease)
    → assign_lease i l (assign_lease i m f) ≡ assign_lease i l f
assign_lease_twice i l m f = fun_ext λ j. ground arith

module _ {A : Type 0} where
  pub assign_cases :
      (k t : Text) (v : Option A) (f : Text → Option A) {x : A}
      → assign k v f t ≡ some x
      → ((k ≡ t) × (v ≡ some x)) ⊎ ((text_eq k t ≡ false) × (f t ≡ some x))
  assign_cases k t v f h = elim (Bool-cases (text_eq k t)) [
    | inl e ↦ inl (text_eq-eq k t e, rw e at h)
    | inr e ↦ inr (e, rw e at h)
  ]

  pub assign_ne :
      (k t : Text) (v : Option A) (f : Text → Option A) {x : A}
      → text_eq k t ≡ false
      → f t ≡ some x
      → assign k v f t ≡ some x
  assign_ne k t v f e h = rw e h

pub assign_lease_cases :
    (i j : ℕ) (l : WaitLease) (f : ℕ → Option WaitLease) {m : WaitLease}
    → assign_lease i l f j ≡ some m
    → ((i ≡ j) × (l ≡ m)) ⊎ (((i == j) ≡ false) × (f j ≡ some m))
assign_lease_cases i j l f h = elim (Bool-cases (i == j)) [
  | inl e ↦ inl ((==_iff i j).0 e, cc (rw e at h))
  | inr e ↦ inr (e, rw e at h)
]

pub assign_lease_ne :
    (i j : ℕ) (l : WaitLease) (f : ℕ → Option WaitLease) {m : WaitLease}
    → (i == j) ≡ false
    → f j ≡ some m
    → assign_lease i l f j ≡ some m
assign_lease_ne i j l f e h = rw e h

pub text_ne : (k t : Text) → k ≢ t → text_eq k t ≡ false
text_ne k t h = elim (Bool-cases (text_eq k t)) [
  | inl e ↦ absurd (h (text_eq-eq k t e))
  | inr e ↦ e
]

pub lease_ne : (i j : ℕ) → i ≢ j → (i == j) ≡ false
lease_ne i j h = elim (Bool-cases (i == j)) [ inl e ↦ absurd (h ((==_iff i j).0 e)) | inr e ↦ e ]

pub unattached : (l : WaitLease) → l.is_attached ≡ false → record l { is_attached = false } ≡ l
unattached l h = ap (λ (b : Bool). record l { is_attached = b }) (sym h)
