-- ===== src/Permission/Evaluate/Allowed.antt =====
-- The whole of `evaluate_permission` of permission_policy.py: what an allowed request is.
use opencode_orchestrator.Prelude.{
  ◌≡◌, ◌≢◌, refl, true, false, List, [], ◌∷◌, Option, none, some, arith, All, IfSome, Bool-cases,
  inl, inr,
}
use opencode_orchestrator.Prelude.Result.{Result, ok, err, ◌>>=◌, IfOk, IfOk-ok}
use opencode_orchestrator.Text.{Text, codes, is_one_of, is_blank}
use opencode_orchestrator.Value.{Value, null, str, arr, obj, Items, nil, cons, Fields, get}
use opencode_orchestrator.Permission.Policy.{
  allow, PermissionPolicy, PolicyError, normalize_permission_policy,
}
use opencode_orchestrator.Permission.Edit.{push}
use opencode_orchestrator.Permission.Decide.{
  PermissionDecision, EvaluationError, permission_of, targets_of, target_texts, known_permissions,
}
use opencode_orchestrator.Permission.Evaluate.{
  evaluate_targets, evaluate_request, evaluate_permission, lift_policy, with_permission,
  with_targets,
}
use opencode_orchestrator.Permission.Evaluate.Gates.{IsGranted, Grants, evaluate_targets-Grants}

-- the targets of a request: some, and none blank
target_texts-filled : (vs : Items) → IfSome (All (λ t. is_blank t ≡ false)) (target_texts vs)
unfolding target_texts
target_texts-filled nil = tt
target_texts-filled (cons (str s) vs) = elim (Bool-cases (is_blank s)) [
  | inl blank ↦ rw blank tt
  | inr filled ↦ rw filled (pushed (target_texts vs) (target_texts-filled vs) filled)
]
  where
    pushed :
        (o : Option (List Text))
        → IfSome (All (λ t. is_blank t ≡ false)) o
        → is_blank s ≡ false
        → IfSome (All (λ t. is_blank t ≡ false)) (push s o)
    pushed none h f = tt
    pushed (some ts) h f = (f, h)
target_texts-filled (cons _ vs) = tt

pub target_texts-ne-nil : (v : Value) (vs : Items) → target_texts (cons v vs) ≢ some []
unfolding target_texts
target_texts-ne-nil (str s) vs h = ground (arith, push-ne-nil s (target_texts vs))
  where
    push-ne-nil : (t : Text) (o : Option (List Text)) → push t o ≢ some []
    push-ne-nil t none e = cc
    push-ne-nil t (some ts) e = cc
target_texts-ne-nil null vs h = cc
target_texts-ne-nil _ vs h = cc

-- at least one target, and none blank
abbrev pub AreTargets : List Text → Type 0
AreTargets ts = (ts ≢ []) × All (λ t. is_blank t ≡ false) ts

targets_of-filled : (o : Option Value) → IfSome AreTargets (targets_of o)
unfolding targets_of
targets_of-filled (some (arr (cons v vs))) =
    nonempty (target_texts (cons v vs)) (target_texts-filled (cons v vs))
      (λ h. target_texts-ne-nil v vs h)
  where
    nonempty :
        (o : Option (List Text))
        → IfSome (All (λ t. is_blank t ≡ false)) o
        → (o ≢ some [])
        → IfSome AreTargets o
    nonempty none f h = tt
    nonempty (some []) f h = absurd (h refl)
    nonempty (some (t ∷ ts)) f h = (λ e. cc, f)
targets_of-filled (some (arr nil)) = tt
targets_of-filled _ = tt

permission_of-known :
    (o : Option Value)
    → IfSome (λ s. (o ≡ some (str s)) × (is_one_of s known_permissions ≡ true)) (permission_of o)
unfolding permission_of
permission_of-known (some (str s)) = elim (Bool-cases (is_one_of s known_permissions)) [
  | inl known ↦ rw known (refl, known)
  | inr unknown ↦ rw unknown tt
]
permission_of-known none = tt
permission_of-known (some _) = tt

-- An allowed request: the policy normalizes, the request is an object that asks for a known
-- permission on targets that are not blank, and every gate has passed.
pub record IsAllowed (lower : Text → Text) (policy request contract : Value)
    (worktree_path : Option Text) : Type 0 where
  pub normalized : PermissionPolicy
  pub normalizes : normalize_permission_policy policy ≡ ok normalized
  pub fields : Fields
  pub is_object : request ≡ obj fields
  pub permission : Text
  pub asks_for : get (codes "permission") fields ≡ some (str permission)
  pub is_known : is_one_of permission known_permissions ≡ true
  pub targets : List Text
  pub has_targets : targets_of (get (codes "patterns") fields) ≡ some targets
  pub filled : AreTargets targets
  pub granted : IsGranted lower normalized permission targets contract worktree_path

module _ (lower : Text → Text) (policy contract : Value) (worktree_path : Option Text)
    (p : PermissionPolicy) (e : normalize_permission_policy policy ≡ ok p) (fs : Fields) where
  abbrev Allows : PermissionDecision → Type 0
  Allows d = d.action ≡ allow → IsAllowed lower policy (obj fs) contract worktree_path

  module _ (permission : Text) (asks : get (codes "permission") fs ≡ some (str permission))
      (known : is_one_of permission known_permissions ≡ true) where
    with_targets-Allows :
        (o : Option (List Text))
        → targets_of (get (codes "patterns") fs) ≡ o
        → IfSome AreTargets o
        → IfOk Allows (with_targets lower p permission o contract worktree_path)
    with_targets-Allows none q f = λ h. cc
    with_targets-Allows (some targets) q f =
        go (evaluate_targets lower p permission targets contract worktree_path)
          (evaluate_targets-Grants lower p permission targets contract worktree_path)
      where
        go :
            (r : Result EvaluationError PermissionDecision)
            → IfOk (Grants lower p permission targets contract worktree_path) r
            → IfOk Allows r
        go (err x) k = tt
        go (ok d) k = λ h. record {
          normalized = p;
          normalizes = e;
          fields = fs;
          is_object = refl;
          permission = permission;
          asks_for = asks;
          is_known = known;
          targets = targets;
          has_targets = q;
          filled = f;
          granted = k h;
        }

  with_permission-Allows :
      (o : Option Text)
      → IfSome
          (λ s.
            (get (codes "permission") fs ≡ some (str s)) × (is_one_of s known_permissions ≡ true))
          o
      → IfOk Allows (with_permission lower p o fs contract worktree_path)
  with_permission-Allows none k = λ h. cc
  with_permission-Allows (some permission) k =
      with_targets-Allows permission k.0 k.1 _ refl (targets_of-filled (get (codes "patterns") fs))

evaluate_request-IsAllowed :
    (lower : Text → Text) (policy request contract : Value) (worktree_path : Option Text)
    (p : PermissionPolicy)
    → normalize_permission_policy policy ≡ ok p
    → IfOk
        (λ d. d.action ≡ allow → IsAllowed lower policy request contract worktree_path)
        (evaluate_request lower p request contract worktree_path)
unfolding evaluate_request
evaluate_request-IsAllowed lower policy (obj fs) contract worktree_path p e =
    with_permission-Allows lower policy contract worktree_path p e fs
      (permission_of (get (codes "permission") fs))
      (permission_of-known (get (codes "permission") fs))
evaluate_request-IsAllowed lower policy null contract worktree_path p e = λ h. cc
evaluate_request-IsAllowed lower policy _ contract worktree_path p e = λ h. cc

-- A request is allowed only through every gate: its policy normalizes, it asks for a known permission
-- on at least one target, none of them blank; no target is high-risk; every bash command is
-- determinate and is either a safe read or a test command of the contract; edits are inside the
-- worktree and the contract's allowed paths; no target holds a forbidden action of the contract; and
-- an external directory is opened by a matching rule that allows it.
pub evaluate_permission-IsAllowed :
    (lower : Text → Text) (policy request contract : Value) (worktree_path : Option Text)
    {d : PermissionDecision}
    → evaluate_permission lower policy request contract worktree_path ≡ ok d
    → d.action ≡ allow
    → IsAllowed lower policy request contract worktree_path
unfolding evaluate_permission
evaluate_permission-IsAllowed lower policy request contract worktree_path {d} e h =
    go (normalize_permission_policy policy) refl e
  where
    go :
        (r : Result PolicyError PermissionPolicy)
        → normalize_permission_policy policy ≡ r
        → (lift_policy r >>= λ p. evaluate_request lower p request contract worktree_path) ≡ ok d
        → IsAllowed lower policy request contract worktree_path
    go (err x) q k = cc
    go (ok p) q k =
        IfOk-ok (λ d. d.action ≡ allow → IsAllowed lower policy request contract worktree_path) _
          (evaluate_request-IsAllowed lower policy request contract worktree_path p q) k h
