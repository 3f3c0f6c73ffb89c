-- ===== src/Task/Phase/Graph.antt =====
-- The graph that `TRANSITIONS` of task_state.py draws.
use opencode_orchestrator.Prelude.{
  all-All, ||-true, All-map, ◌≡◌, refl, sym, subst, Bool, true, List, [], ◌∷◌, some, any, all, All,
  ◌||◌, Some, any-Some, inl, inr,
}
use opencode_orchestrator.Text.{text_eq}
use opencode_orchestrator.Text.Laws.{text_eq-eq}
use opencode_orchestrator.Task.Phase.{
  Phase, draft, risk_check, awaiting_approval, preparing, dispatched, failed, collecting, reviewing,
  revision_requested, passed, awaiting_integration, cancelled, phase_text, successors, find_phase,
  phase_of,
}

-- an edge of the table
infix 40 ◌⟶◌
abbrev pub ◌⟶◌ : Phase → Phase → Type 0
p ⟶ q = Some (λ r. r ≡ q) (successors p)

pub phase_of-phase_text : (p : Phase) → phase_of (phase_text p) ≡ some p
unfolding phase_of find_phase text_eq
phase_of-phase_text draft = refl
phase_of-phase_text _ = refl

pub phase_text-injective : (p q : Phase) → phase_text p ≡ phase_text q → p ≡ q
phase_text-injective p q e = cc (phase_of-phase_text p, phase_of-phase_text q)

-- phases through which every way from `DRAFT` to a phase leads
abbrev pub milestones : Phase → List Phase
milestones draft = []
milestones risk_check = []
milestones awaiting_approval = risk_check ∷ []
milestones preparing = risk_check ∷ []
milestones dispatched = preparing ∷ risk_check ∷ []
milestones reviewing = collecting ∷ dispatched ∷ preparing ∷ risk_check ∷ []
milestones revision_requested = reviewing ∷ collecting ∷ dispatched ∷ preparing ∷ risk_check ∷ []
milestones passed = reviewing ∷ collecting ∷ dispatched ∷ preparing ∷ risk_check ∷ []
milestones awaiting_integration =
    passed ∷ reviewing ∷ collecting ∷ dispatched ∷ preparing ∷ risk_check ∷ []
milestones failed = []
milestones cancelled = []
milestones _ = dispatched ∷ preparing ∷ risk_check ∷ []

abbrev same : Phase → Phase → Bool
same p q = text_eq (phase_text p) (phase_text q)

-- the milestones of `q` are `p` or milestones of `p`
abbrev covered : Phase → Phase → Bool
covered p q = all (λ x. same x p || any (same x) (milestones p)) (milestones q)

covered-table : (p : Phase) → all (covered p) (successors p) ≡ true
unfolding all any text_eq
covered-table draft = refl
covered-table _ = refl

pick : (P : Phase → Type 0) (q : Phase) (qs : List Phase) → All P qs → Some (λ r. r ≡ q) qs → P q
pick P q [] h k = absurd k
pick P q (r ∷ qs) h (inl e) = subst P e h.0
pick P q (r ∷ qs) h (inr k) = pick P q qs h.1 k

same-eq : (p q : Phase) → same p q ≡ true → p ≡ q
same-eq p q h = phase_text-injective p q (text_eq-eq (phase_text p) (phase_text q) h)

All-pick :
    (P : Phase → Type 0) (x : Phase) (xs : List Phase)
    → All P xs
    → Some (λ y. same x y ≡ true) xs
    → P x
All-pick P x [] h k = absurd k
All-pick P x (y ∷ ys) h (inl e) = subst P (sym (same-eq x y e)) h.0
All-pick P x (y ∷ ys) h (inr k) = All-pick P x ys h.1 k

-- A step of the table adds no milestone but the phase that it leaves.
pub next_milestones :
    (P : Phase → Type 0) (p q : Phase) → p ⟶ q → P p → All P (milestones p) → All P (milestones q)
next_milestones P p q e now before = All-map _ {Q = P} met (milestones q) (
    all-All (λ x. same x p || any (same x) (milestones p)) (milestones q)
      (pick (λ y. covered p y ≡ true) q (successors p)
        (all-All (covered p) (successors p) (covered-table p)) e))
  where
    met : (x : Phase) → (same x p || any (same x) (milestones p)) ≡ true → P x
    met x h = elim (||-true _ _ h) [
      | inl last ↦ subst P (sym (same-eq x p last)) now
      | inr early ↦ All-pick P x (milestones p) before (any-Some (same x) (milestones p) early)
    ]
