-- ===== src/Permission/Examples.antt =====
-- Runs of permission_policy.py on small inputs.
use opencode_orchestrator.Prelude.{
  ◌≡◌, ◌≢◌, refl, ◌+◌, false, ◌&&◌, ◌⊎◌, inl, List, [], ◌∷◌, map, Option, none, some, All, AllPairs,
  any, leb, if◌then◌else◌, String,
}
use opencode_orchestrator.Prelude.Result.{ok}
use opencode_orchestrator.Text.{Text, codes, texts, is_blank}
use opencode_orchestrator.Value.{Value, str, arr, obj, nil, Fields, end, field, of_list}
use opencode_orchestrator.Permission.Policy.{
  Rule, PermissionPolicy, allow, deny, project, normalize_permission_policy, policy_value,
}
use opencode_orchestrator.Permission.Policy.Roundtrip.{normalize_permission_policy_idem}
use opencode_orchestrator.Permission.Edit.{worktree_root}
use opencode_orchestrator.Permission.Edit.Confined.{IsConfined, edit_relative_targets-IsConfined}
use opencode_orchestrator.Permission.Plain.{IsPlainCommand}
use opencode_orchestrator.Permission.Decide.{
  PermissionDecision, always, explicit_rule_allow, default_allow, high_risk_action,
  explicit_contract_prohibition, asking, denying, matched_rule, rule_matches, rule_target_variants,
}
use opencode_orchestrator.Permission.Decide.LastMatch.{IsLast, matched_rule-IsLast}
use opencode_orchestrator.Permission.Evaluate.{evaluate_permission}
use opencode_orchestrator.Permission.Evaluate.Allowed.{IsAllowed, evaluate_permission-IsAllowed}
use opencode_orchestrator.Permission.Evaluate.Reached.{evaluate_permission_total}
use opencode_orchestrator.Permission.Evaluate.Responses.{always_needs_basis}
use opencode_orchestrator.Permission.Evaluate.Risky.{
  high_risk-not-allowed, forbidden-not-allowed, bash_allowed-IsPlainCommand,
}
use opencode_orchestrator.Permission.Run.{running}

-- `str.lower` on the letters of ASCII
abbrev ascii_lower : Text → Text
ascii_lower s = map (λ c. if leb 65 c && leb c 90 then c + 32 else c) s

abbrev strings : List String → Value
strings [] = arr nil
strings (s ∷ ss) = arr (of_list (map str (texts (s ∷ ss))))

abbrev edits_rule : Rule
edits_rule = record { permission = codes "edit"; pattern = codes "src/*"; action = allow }

abbrev secrets_rule : Rule
secrets_rule = record { permission = codes "*"; pattern = codes "src/private/*"; action = deny }

abbrev strict : PermissionPolicy
strict = record {
  default = allow;
  persistence = project;
  approval_basis = some (codes "reviewed");
  rules = edits_rule ∷ secrets_rule ∷ [];
}

abbrev policy : Value
policy = policy_value strict

abbrev request : String → List String → Fields
request permission patterns =
    field (codes "permission") (str (codes permission))
      (field (codes "patterns") (strings patterns) end)

abbrev contract : Value
contract = obj (
    field (codes "allowed_paths") (strings ("src/*" ∷ [])) (
      field (codes "forbidden_actions") (strings (" Release" ∷ []))
        (field (codes "test_commands") (strings ("pytest -q tests" ∷ [])) end)))

abbrev worktree : Option Text
worktree = some (codes "/work/./tree")

abbrev edit_request : Fields
edit_request = request "edit" ("/work/tree/src/a.py" ∷ "src/b.py" ∷ [])

abbrev allowing : PermissionDecision
allowing = record { action = allow; response = some always; reason = explicit_rule_allow }

edits_allowed :
    evaluate_permission ascii_lower policy (obj edit_request) contract worktree ≡ ok allowing
unfolding running policy_value
edits_allowed = refl

normalize_strict : normalize_permission_policy policy ≡ ok strict
unfolding running
normalize_strict = refl

evaluate_permission-IsAllowed_example :
    IsAllowed ascii_lower policy (obj edit_request) contract worktree
evaluate_permission-IsAllowed_example =
    evaluate_permission-IsAllowed ascii_lower policy (obj edit_request) contract worktree
      edits_allowed refl

always_needs_basis_example :
    (p : PermissionPolicy) × (normalize_permission_policy policy ≡ ok p)
    × (p.persistence ≡ project)
    × ((basis : Text) × (p.approval_basis ≡ some basis) × (is_blank basis ≡ false))
always_needs_basis_example =
    always_needs_basis ascii_lower policy (obj edit_request) contract worktree edits_allowed refl

evaluate_permission_total_example :
    (d : PermissionDecision) × (evaluate_permission ascii_lower policy
        (obj edit_request)
        contract
        worktree
      ≡ ok d)
unfolding running
evaluate_permission_total_example =
    evaluate_permission_total ascii_lower policy (obj edit_request) contract worktree {p = strict}
      {items = codes "release" ∷ []} refl refl

high_risk-not-allowed_example : (asking high_risk_action).action ≢ allow
unfolding running
high_risk-not-allowed_example =
    high_risk-not-allowed ascii_lower policy contract (request "bash" ("Git PUSH origin" ∷ []))
      worktree (codes "Git PUSH origin" ∷ []) {d = asking high_risk_action} refl (inl (inl refl))
      refl

forbidden-not-allowed_example : (denying explicit_contract_prohibition).action ≢ allow
unfolding running
forbidden-not-allowed_example =
    forbidden-not-allowed ascii_lower policy contract (request "read" ("docs/RELEASE.md" ∷ []))
      worktree (codes "docs/RELEASE.md" ∷ []) (codes "release" ∷ [])
      {d = denying explicit_contract_prohibition} refl refl (inl (inl refl)) refl

abbrev by_default : PermissionDecision
by_default = record { action = allow; response = some always; reason = default_allow }

bash_allowed-IsPlainCommand_example : All IsPlainCommand (codes "git status -s" ∷ [])
unfolding running
bash_allowed-IsPlainCommand_example =
    bash_allowed-IsPlainCommand ascii_lower policy contract (request "bash" ("git status -s" ∷ []))
      worktree (codes "git status -s" ∷ []) {d = by_default} refl refl refl refl

edit_relative_targets-IsConfined_example :
    (root : Option Text) × (worktree_root worktree ≡ some root)
    × AllPairs
        (IsConfined root)
        (texts ("/work/tree/src/a.py" ∷ "src//b.py" ∷ []))
        (texts ("src/a.py" ∷ "src/b.py" ∷ []))
unfolding running
edit_relative_targets-IsConfined_example =
    edit_relative_targets-IsConfined (texts ("/work/tree/src/a.py" ∷ "src//b.py" ∷ [])) worktree
      (texts ("src/a.py" ∷ "src/b.py" ∷ [])) refl

normalize_permission_policy_idem_example :
    normalize_permission_policy (policy_value strict) ≡ ok strict
normalize_permission_policy_idem_example = normalize_permission_policy_idem policy normalize_strict

matched_rule-IsLast_example :
    let test = λ (r : Rule).
      any
        (rule_matches r (codes "edit"))
        (rule_target_variants (codes "edit") (codes "src/a.py" ∷ []) (codes "src/a.py" ∷ [])) in
    (All (λ r. test r ≡ false) (edits_rule ∷ secrets_rule ∷ [])
      × (matched_rule
            (codes "edit")
            (codes "src/a.py" ∷ [])
            (codes "src/a.py" ∷ [])
            (edits_rule ∷ secrets_rule ∷ [])
          ≡ none))
    ⊎ ((rule : Rule) × (matched_rule
            (codes "edit")
            (codes "src/a.py" ∷ [])
            (codes "src/a.py" ∷ [])
            (edits_rule ∷ secrets_rule ∷ [])
          ≡ some rule)
        × IsLast test (edits_rule ∷ secrets_rule ∷ []) rule)
matched_rule-IsLast_example =
    matched_rule-IsLast (codes "edit") (codes "src/a.py" ∷ []) (codes "src/a.py" ∷ [])
      (edits_rule ∷ secrets_rule ∷ [])
