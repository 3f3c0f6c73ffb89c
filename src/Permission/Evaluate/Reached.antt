-- ===== src/Permission/Evaluate/Reached.antt =====
-- The shape of every result of `evaluate_permission` of permission_policy.py: a gate asked the user,
-- or the contract and the rules were reached. With it: when an exception is raised.
use opencode_orchestrator.Prelude.{
  ◌≡◌, refl, ◌∙◌, ◌&&◌, List, Option, none, some, any, Bool-cases, inl, inr, ◌⊎◌,
}
use opencode_orchestrator.Prelude.Result.{Result, ok}
use opencode_orchestrator.Text.{Text, codes, text_eq}
use opencode_orchestrator.Value.{Value, null, obj, Fields}
use opencode_orchestrator.Permission.Policy.{PermissionPolicy, normalize_permission_policy}
use opencode_orchestrator.Permission.Options.{bash_is_indeterminate}
use opencode_orchestrator.Permission.Risk.{has_high_risk_action}
use opencode_orchestrator.Permission.Decide.{
  PermissionDecision, EvaluationError, asking, edit_scope, indeterminate_bash, indeterminate_target,
  indeterminate_request, unknown_permission, high_risk_action, edit_outside_contract,
}
use opencode_orchestrator.Permission.Evaluate.{
  forbidden_actions, decide_permitted, decide_targets, decide_scope, decide_normalized,
  evaluate_targets, evaluate_request, evaluate_permission, with_permission, with_targets,
}
use opencode_orchestrator.Permission.Decide.{Reason}

module _ (lower : Text → Text) (p : PermissionPolicy) (contract : Value) where
  -- a gate's question, or what the contract and the rules say of some targets
  abbrev pub Reaches : Result EvaluationError PermissionDecision → Type 0
  Reaches r =
      ((reason : Reason) × (r ≡ ok (asking reason)))
      ⊎ ((permission : Text) × (targets : List Text) × (scoped : List Text) × (r
            ≡ decide_targets lower p permission targets scoped contract))

  module _ (permission : Text) (targets : List Text) (worktree_path : Option Text) where
    decide_scope-Reaches :
        (addressed : List Text)
        → Reaches (decide_scope lower p permission targets addressed contract worktree_path)
    unfolding decide_scope
    decide_scope-Reaches addressed =
        go (edit_scope permission targets addressed contract worktree_path)
      where
        go :
            (o : Option (List Text))
            → Reaches (elim o [
              | none ↦ ok (asking edit_outside_contract)
              | some scoped ↦ decide_targets lower p permission targets scoped contract
            ])
        go none = inl (edit_outside_contract, refl)
        go (some scoped) = inr (permission, targets, scoped, refl)

    decide_normalized-Reaches :
        (o : Option (List Text))
        → Reaches (decide_normalized lower p permission targets o contract worktree_path)
    unfolding decide_normalized
    decide_normalized-Reaches none = inl (indeterminate_target, refl)
    decide_normalized-Reaches (some addressed) =
        elim (Bool-cases (has_high_risk_action lower permission targets)) [
          | inl high ↦ rw high (inl (high_risk_action, refl))
          | inr low ↦ rw low (decide_scope-Reaches addressed)
        ]

    evaluate_targets-Reaches :
        Reaches (evaluate_targets lower p permission targets contract worktree_path)
    unfolding evaluate_targets
    evaluate_targets-Reaches =
        elim (Bool-cases (text_eq permission (codes "bash") && any bash_is_indeterminate targets)) [
          | inl unclear ↦ rw unclear (inl (indeterminate_bash, refl))
          | inr clear ↦ rw clear (decide_normalized-Reaches _)
        ]

  module _ (fs : Fields) (worktree_path : Option Text) where
    with_targets-Reaches :
        (permission : Text) (o : Option (List Text))
        → Reaches (with_targets lower p permission o contract worktree_path)
    with_targets-Reaches permission none = inl (indeterminate_target, refl)
    with_targets-Reaches permission (some targets) =
        evaluate_targets-Reaches permission targets worktree_path

    with_permission-Reaches :
        (o : Option Text) → Reaches (with_permission lower p o fs contract worktree_path)
    with_permission-Reaches none = inl (unknown_permission, refl)
    with_permission-Reaches (some permission) = with_targets-Reaches permission _

  pub evaluate_request-Reaches :
      (request : Value) (worktree_path : Option Text)
      → Reaches (evaluate_request lower p request contract worktree_path)
  unfolding evaluate_request
  evaluate_request-Reaches (obj fs) worktree_path = with_permission-Reaches fs worktree_path _
  evaluate_request-Reaches null worktree_path = inl (indeterminate_request, refl)
  evaluate_request-Reaches _ worktree_path = inl (indeterminate_request, refl)

  decide_targets-total :
      {items : List Text}
      → forbidden_actions lower contract ≡ ok items
      → (permission : Text) (targets scoped : List Text)
      → (d : PermissionDecision) × (decide_targets lower p permission targets scoped contract
          ≡ ok d)
  unfolding decide_targets
  decide_targets-total {items} e permission targets scoped =
      (decide_permitted lower p permission targets scoped contract items, rw e)

-- A decision is returned, whatever the request, if the policy normalizes and the contract's
-- forbidden actions can be gone through.
pub evaluate_permission_total :
    (lower : Text → Text) (policy request contract : Value) (worktree_path : Option Text)
    {p : PermissionPolicy} {items : List Text}
    → normalize_permission_policy policy ≡ ok p
    → forbidden_actions lower contract ≡ ok items
    → (d : PermissionDecision) × (evaluate_permission lower policy request contract worktree_path
        ≡ ok d)
unfolding evaluate_permission
evaluate_permission_total lower policy request contract worktree_path {p} e f =
    rw e (go (evaluate_request-Reaches lower p contract request worktree_path))
  where
    go :
        Reaches lower p contract (evaluate_request lower p request contract worktree_path)
        → (d : PermissionDecision) × (evaluate_request lower p request contract worktree_path
            ≡ ok d)
    go (inl (reason, q)) = (asking reason, q)
    go (inr (permission, targets, scoped, q)) =
        let (d, r) = decide_targets-total lower p contract f permission targets scoped in (d, q ∙ r)
