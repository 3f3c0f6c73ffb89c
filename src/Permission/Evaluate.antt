-- ===== src/Permission/Evaluate.antt =====
-- `evaluate_permission` of permission_policy.py: the gates in the order of the source, then the
-- decision by the rules. An exception (a policy that does not normalize, contract items that cannot
-- be iterated) is an error.
pub mod Gates
pub mod Allowed
pub mod Reached
pub mod Responses
pub mod Risky
use opencode_orchestrator.Prelude.{
  not, ◌&&◌, List, [], ◌∷◌, Option, none, some, any, all, if◌then◌else◌,
}
use opencode_orchestrator.Prelude.Result.{Result, ok, err, ◌>>=◌}
use opencode_orchestrator.Text.{Text, codes, text_eq, is_in, strip, is_blank}
use opencode_orchestrator.Value.{Value, str, obj, Fields, get}
use opencode_orchestrator.Permission.Policy.{
  PermissionPolicy, PolicyError, normalize_permission_policy,
}
use opencode_orchestrator.Permission.Options.{bash_is_indeterminate}
use opencode_orchestrator.Permission.Risk.{lowered, has_high_risk_action}
use opencode_orchestrator.Permission.Decide.{
  EvaluationError, PermissionDecision, asking, bad_policy, bash_supported, decide, denying,
  edit_outside_contract, edit_scope, explicit_contract_prohibition, get_or_empty, high_risk_action,
  indeterminate_bash, indeterminate_request, indeterminate_target, iterate, matched_rule,
  normalize_request_targets, permission_of, targets_of, unknown_permission, unsupported_bash,
}

abbrev pub lift_policy :
    Result PolicyError PermissionPolicy → Result EvaluationError PermissionPolicy
lift_policy (ok p) = ok p
lift_policy (err e) = err (bad_policy e)

module _ (lower : Text → Text) where
  -- `item.strip().lower()` for the items that are texts and not blank
  unfoldable pub forbidden_texts : List Value → List Text
  forbidden_texts [] = []
  forbidden_texts (str s ∷ vs) =
      let rest = forbidden_texts vs in if is_blank s then rest else lower (strip s) ∷ rest
  forbidden_texts (_ ∷ vs) = forbidden_texts vs

  unfoldable pub forbidden_actions : Value → Result EvaluationError (List Text)
  forbidden_actions (obj contract) = do
    items ← iterate (get_or_empty (get (codes "forbidden_actions") contract))
    ok (forbidden_texts items)
  forbidden_actions _ = ok []

  -- from the contract's prohibitions on
  unfoldable pub decide_permitted :
      PermissionPolicy → Text → List Text → List Text → Value → List Text → PermissionDecision
  decide_permitted policy permission targets normalized contract forbidden =
      if any (λ item. is_in item (lowered lower targets)) forbidden
      then denying explicit_contract_prohibition
      else if text_eq permission (codes "bash")
          && not (all (λ t. bash_supported t contract) targets)
      then asking unsupported_bash
      else decide policy permission (matched_rule permission targets normalized policy.rules)

  unfoldable pub decide_targets :
      PermissionPolicy
      → Text
      → List Text
      → List Text
      → Value
      → Result EvaluationError PermissionDecision
  decide_targets policy permission targets normalized contract = do
    forbidden ← forbidden_actions contract
    ok (decide_permitted policy permission targets normalized contract forbidden)

  unfoldable pub decide_scope :
      PermissionPolicy
      → Text
      → List Text
      → List Text
      → Value
      → Option Text
      → Result EvaluationError PermissionDecision
  decide_scope policy permission targets normalized contract worktree_path =
      elim (edit_scope permission targets normalized contract worktree_path) [
        | none ↦ ok (asking edit_outside_contract)
        | some normalized' ↦ decide_targets policy permission targets normalized' contract
      ]

  unfoldable pub decide_normalized :
      PermissionPolicy
      → Text
      → List Text
      → Option (List Text)
      → Value
      → Option Text
      → Result EvaluationError PermissionDecision
  decide_normalized policy permission targets none contract worktree_path =
      ok (asking indeterminate_target)
  decide_normalized policy permission targets (some normalized) contract worktree_path =
      if has_high_risk_action lower permission targets
      then ok (asking high_risk_action)
      else decide_scope policy permission targets normalized contract worktree_path

  unfoldable pub evaluate_targets :
      PermissionPolicy
      → Text
      → List Text
      → Value
      → Option Text
      → Result EvaluationError PermissionDecision
  evaluate_targets policy permission targets contract worktree_path =
      if text_eq permission (codes "bash") && any bash_is_indeterminate targets
      then ok (asking indeterminate_bash)
      else decide_normalized policy permission targets
          (normalize_request_targets permission targets) contract worktree_path

  abbrev pub with_targets :
      PermissionPolicy
      → Text
      → Option (List Text)
      → Value
      → Option Text
      → Result EvaluationError PermissionDecision
  with_targets policy permission none contract worktree_path = ok (asking indeterminate_target)
  with_targets policy permission (some targets) contract worktree_path =
      evaluate_targets policy permission targets contract worktree_path

  abbrev pub with_permission :
      PermissionPolicy
      → Option Text
      → Fields
      → Value
      → Option Text
      → Result EvaluationError PermissionDecision
  with_permission policy none request contract worktree_path = ok (asking unknown_permission)
  with_permission policy (some permission) request contract worktree_path =
      with_targets policy permission (targets_of (get (codes "patterns") request)) contract
        worktree_path

  unfoldable pub evaluate_request :
      PermissionPolicy → Value → Value → Option Text → Result EvaluationError PermissionDecision
  evaluate_request policy (obj request) contract worktree_path =
      with_permission policy (permission_of (get (codes "permission") request)) request contract
        worktree_path
  evaluate_request policy _ contract worktree_path = ok (asking indeterminate_request)

  unfoldable pub evaluate_permission :
      Value → Value → Value → Option Text → Result EvaluationError PermissionDecision
  evaluate_permission policy request task_contract worktree_path = do
    normalized ← lift_policy (normalize_permission_policy policy)
    evaluate_request normalized request task_contract worktree_path
