-- ===== src/Permission/Policy/Roundtrip.antt =====
-- Normalizing the `dict` of a normalized policy gives the policy again.
use opencode_orchestrator.Prelude.{
  ℕ, suc, ◌≡◌, refl, List, [], ◌∷◌, Option, none, some, All, any, all,
}
use opencode_orchestrator.Prelude.Result.{ok, IfOk-ok}
use opencode_orchestrator.Text.{Text, text_eq, is_one_of}
use opencode_orchestrator.Value.{Value, str, get}
use opencode_orchestrator.Permission.Policy.{
  Action, allow, ask, deny, Persistence, task, project, Rule, PermissionPolicy, PolicyError,
  rule_action, basis_field, text_field, action_field, normalize_rule, normalize_rules,
  normalize_permission_policy, object, only_keys, default_field, persistence_field, rules_field,
  parse_action, has_rule_keys, action_of, persistence_of, action_text, persistence_text,
  basis_value, rule_value, rule_values, policy_value, bad_default,
}
use opencode_orchestrator.Permission.Policy.Valid.{
  IsRule, IsBasis, IsPolicy, normalize_permission_policy-IsPolicy,
}

parse-action_text : (a : Action) (e : PolicyError) → parse_action (str (action_text a)) e ≡ ok a
unfolding parse_action action_of text_eq
parse-action_text allow e = refl
parse-action_text ask e = refl
parse-action_text deny e = refl

persistence_field-text :
    (p : Persistence) → persistence_field (some (str (persistence_text p))) ≡ ok p
unfolding persistence_field persistence_of text_eq
persistence_field-text task = refl
persistence_field-text project = refl

basis_field-value :
    (basis : Option Text) → IsBasis basis → basis_field (some (basis_value basis)) ≡ ok basis
unfolding basis_field
basis_field-value none h = refl
basis_field-value (some s) h = rw h

-- the reads of a rule's `dict`
normalize_rule-value :
    (index : ℕ) (r : Rule) → IsRule r → normalize_rule index (rule_value r) ≡ ok r
unfolding normalize_rule text_field action_field get text_eq has_rule_keys only_keys is_one_of any
    all
normalize_rule-value index r h = rw (
  h.permission_filled,
  h.pattern_filled,
  parse-action_text r.action (rule_action index),
  h.pattern_settled,
)

normalize_rules-values :
    (index : ℕ) (rs : List Rule) → All IsRule rs → normalize_rules index (rule_values rs) ≡ ok rs
unfolding normalize_rules
normalize_rules-values index [] h = refl
normalize_rules-values index (r ∷ rs) h =
    rw (normalize_rule-value index r h.0, normalize_rules-values (suc index) rs h.1)

-- A well-formed policy is what its own `dict` normalizes to.
pub normalize-policy_value :
    (p : PermissionPolicy) → IsPolicy p → normalize_permission_policy (policy_value p) ≡ ok p
unfolding normalize_permission_policy policy_value object only_keys get text_eq is_one_of any all
    default_field rules_field
normalize-policy_value p h = rw (
  parse-action_text p.default bad_default,
  persistence_field-text p.persistence,
  basis_field-value p.approval_basis h.basis_filled,
  h.basis_there,
  normalize_rules-values 0 p.rules h.rules_valid,
)

-- A policy that was accepted once is accepted again, in the form in which the program keeps it, and
-- unchanged: `evaluate_permission` may normalize what the task's request already holds.
pub normalize_permission_policy_idem :
    (value : Value) {p : PermissionPolicy}
    → normalize_permission_policy value ≡ ok p
    → normalize_permission_policy (policy_value p) ≡ ok p
normalize_permission_policy_idem value {p} e = normalize-policy_value p (
    IfOk-ok IsPolicy (normalize_permission_policy value)
      (normalize_permission_policy-IsPolicy value) e)
