-- ===== src/Permission/Evaluate/Responses.antt =====
-- The reply that goes with a decision of `evaluate_permission` of permission_policy.py.
use opencode_orchestrator.Prelude.{
  ◌≡◌, refl, sym, subst, ◌∙◌, true, false, List, Option, none, some, arith, inl, inr,
}
use opencode_orchestrator.Prelude.Result.{
  Result, ok, err, ◌>>=◌, IfOk, IfOk-ok, IfOk-bind, IfOk-trivial,
}
use opencode_orchestrator.Text.{Text, is_blank}
use opencode_orchestrator.Value.{Value}
use opencode_orchestrator.Permission.Policy.{
  Action, allow, ask, deny, Persistence, task, project, Rule, PermissionPolicy, PolicyError,
  normalize_permission_policy, basis_present,
}
use opencode_orchestrator.Permission.Decide.{
  PermissionDecision, EvaluationError, asking, allow_response, decide, matched_rule,
  external_decision, ordinary_decision,
}
use opencode_orchestrator.Permission.Evaluate.{
  forbidden_actions, decide_permitted, decide_targets, evaluate_request, evaluate_permission,
  lift_policy,
}
use opencode_orchestrator.Permission.Decide.{Reason, Response, once, always, reject}
use opencode_orchestrator.Permission.Policy.Valid.{
  IsBasis, IsPolicy, normalize_permission_policy-IsPolicy,
}
use opencode_orchestrator.Permission.Evaluate.Reached.{Reaches, evaluate_request-Reaches}

-- The reply to OpenCode that goes with an action, under a persistence.
abbrev pub reply_to : Persistence → Action → Option Response
reply_to task allow = some once
reply_to project allow = some always
reply_to persistence ask = none
reply_to persistence deny = some reject

abbrev pub IsReplied : PermissionPolicy → PermissionDecision → Type 0
IsReplied p d = d.response ≡ reply_to p.persistence d.action

decide-IsReplied :
    (p : PermissionPolicy) (permission : Text) (matched : Option Rule)
    → IsReplied p (decide p permission matched)
unfolding decide external_decision ordinary_decision allow_response
decide-IsReplied p permission none = ground arith
decide-IsReplied p permission (some rule) = ground arith

module _ (lower : Text → Text) (p : PermissionPolicy) (contract : Value) where
  decide_permitted-IsReplied :
      (permission : Text) (targets scoped forbidden : List Text)
      → IsReplied p (decide_permitted lower p permission targets scoped contract forbidden)
  unfolding decide_permitted
  decide_permitted-IsReplied permission targets scoped forbidden =
      ground (arith, decide-IsReplied p permission (matched_rule permission targets scoped p.rules))

  decide_targets-IsReplied :
      (permission : Text) (targets scoped : List Text)
      → IfOk (IsReplied p) (decide_targets lower p permission targets scoped contract)
  unfolding decide_targets
  decide_targets-IsReplied permission targets scoped =
      IfOk-bind (λ _. Unit {0}) (IsReplied p) (forbidden_actions lower contract) _
        (IfOk-trivial (forbidden_actions lower contract))
        (λ forbidden _. decide_permitted-IsReplied permission targets scoped forbidden)

  asking-IsReplied : (reason : Reason) → IsReplied p (asking reason)
  asking-IsReplied reason = ground arith

  Reaches-IsReplied :
      (r : Result EvaluationError PermissionDecision)
      → Reaches lower p contract r
      → IfOk (IsReplied p) r
  Reaches-IsReplied r (inl (reason, q)) = rw q (asking-IsReplied reason)
  Reaches-IsReplied r (inr (permission, targets, scoped, q)) =
      rw q (decide_targets-IsReplied permission targets scoped)

always_for_project :
    (persistence : Persistence) (a : Action)
    → reply_to persistence a ≡ some always
    → persistence ≡ project
always_for_project project a h = refl
always_for_project task allow h = cc
always_for_project task ask h = cc
always_for_project task deny h = cc

basis_for_project :
    (basis : Option Text)
    → basis_present project basis ≡ true
    → IsBasis basis
    → (s : Text) × (basis ≡ some s) × (is_blank s ≡ false)
unfolding basis_present
basis_for_project none h f = cc
basis_for_project (some s) h f = (s, refl, f)

-- The reply that a decision is sent with is a function of its action and the policy's persistence:
-- nothing for a question, `reject` for a denial, `once` or `always` for an approval.
evaluate_permission-IsReplied :
    (lower : Text → Text) (policy request contract : Value) (worktree_path : Option Text)
    {d : PermissionDecision}
    → evaluate_permission lower policy request contract worktree_path ≡ ok d
    → (p : PermissionPolicy) × (normalize_permission_policy policy ≡ ok p) × IsReplied p d
unfolding evaluate_permission
evaluate_permission-IsReplied lower policy request contract worktree_path {d} e =
    go (normalize_permission_policy policy) refl e
  where
    go :
        (r : Result PolicyError PermissionPolicy)
        → normalize_permission_policy policy ≡ r
        → (lift_policy r >>= λ p. evaluate_request lower p request contract worktree_path) ≡ ok d
        → (p : PermissionPolicy) × (normalize_permission_policy policy ≡ ok p) × IsReplied p d
    go (err x) q k = cc
    go (ok p) q k = (
      p,
      q,
      IfOk-ok (IsReplied p) (evaluate_request lower p request contract worktree_path)
          (Reaches-IsReplied lower p contract _
            (evaluate_request-Reaches lower p contract request worktree_path))
          k,
    )

-- The reply `always` goes out only if the policy asks for project persistence and states its approval
-- basis, in a text that is not blank.
pub always_needs_basis :
    (lower : Text → Text) (policy request contract : Value) (worktree_path : Option Text)
    {d : PermissionDecision}
    → evaluate_permission lower policy request contract worktree_path ≡ ok d
    → d.response ≡ some always
    → (p : PermissionPolicy) × (normalize_permission_policy policy ≡ ok p)
      × (p.persistence ≡ project)
      × ((basis : Text) × (p.approval_basis ≡ some basis) × (is_blank basis ≡ false))
always_needs_basis lower policy request contract worktree_path {d} e h =
    let (p, q, replied) =
      evaluate_permission-IsReplied lower policy request contract worktree_path e in
    let valid : IsPolicy p =
      IfOk-ok IsPolicy (normalize_permission_policy policy)
        (normalize_permission_policy-IsPolicy policy) q in
    let persistent = always_for_project p.persistence d.action (sym replied ∙ h) in
    (
      p,
      q,
      persistent,
      basis_for_project p.approval_basis
          (subst (λ k. basis_present k p.approval_basis ≡ true) persistent valid.basis_there)
          valid.basis_filled,
    )
