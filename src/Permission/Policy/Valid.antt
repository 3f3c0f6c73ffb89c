-- ===== src/Permission/Policy/Valid.antt =====
-- What holds of every policy that `normalize_permission_policy` returns.
use opencode_orchestrator.Prelude.{
  ℕ, suc, ◌≡◌, refl, Bool, true, false, ◌&&◌, Option, none, some, All, Bool-cases, inl, inr,
  if◌then◌else◌,
}
use opencode_orchestrator.Prelude.Result.{
  Result, ok, err, IfOk, IfOk-bind, IfOk-require, IfOk-trivial,
}
use opencode_orchestrator.Text.{Text, codes, text_eq, is_blank}
use opencode_orchestrator.Value.{Value, str, obj, Items, nil, cons, get}
use opencode_orchestrator.Permission.Paths.{normalize_external_pattern}
use opencode_orchestrator.Permission.Paths.External.{
  IsRooted, normalize_external_pattern-IsRooted, normalize_external_pattern_of_rooted,
  IsRooted-is_blank,
}
use opencode_orchestrator.Permission.Policy.{
  Action, Rule, PermissionPolicy, PolicyError, rule_keys, rule_action, basis_field, basis_present,
  text_field, action_field, rule_pattern_of, normalize_rule, normalize_rules,
  normalize_permission_policy, is_allow, object, only_keys, permission_keys, default_field,
  persistence_field, rules_field, unknown_keys, project_needs_basis, has_rule_keys, lift_path,
}

-- A rule keeps a pattern that normalizes to itself where it opens an external directory.
pub record IsRule (r : Rule) : Type 0 where
  pub permission_filled : is_blank r.permission ≡ false
  pub pattern_filled : is_blank r.pattern ≡ false
  pub pattern_settled : rule_pattern_of r.permission r.pattern r.action ≡ ok r.pattern

abbrev pub IsBasis : Option Text → Type 0
IsBasis none = Unit
IsBasis (some s) = is_blank s ≡ false

pub record IsPolicy (p : PermissionPolicy) : Type 0 where
  pub basis_filled : IsBasis p.approval_basis
  pub basis_there : basis_present p.persistence p.approval_basis ≡ true
  pub rules_valid : All IsRule p.rules

text_field-filled :
    (o : Option Value) (e : PolicyError) → IfOk (λ s. is_blank s ≡ false) (text_field o e)
unfolding text_field
text_field-filled (some (str s)) e = elim (Bool-cases (is_blank s)) [
  | inl blank ↦ rw blank tt
  | inr filled ↦ rw filled filled
]
text_field-filled _ e = tt

basis_field-IsBasis : (o : Option Value) → IfOk IsBasis (basis_field o)
unfolding basis_field
basis_field-IsBasis none = tt
basis_field-IsBasis (some (str s)) = elim (Bool-cases (is_blank s)) [
  | inl blank ↦ rw blank tt
  | inr filled ↦ rw filled filled
]
basis_field-IsBasis (some _) = tt

-- the pattern of a rule, once normalized, is filled and settled
abbrev IsSettled : Text → Action → Text → Type 0
IsSettled permission action q = (is_blank q ≡ false) × (rule_pattern_of permission q action ≡ ok q)

lift_path-settled :
    (external : Bool) (pattern : Text)
    → is_blank pattern ≡ false
    → IfOk
        (λ q.
          (is_blank q ≡ false)
          × ((if external then lift_path (normalize_external_pattern q) else ok q) ≡ ok q))
        (if external then lift_path (normalize_external_pattern pattern) else ok pattern)
lift_path-settled false pattern h = (h, refl)
lift_path-settled true pattern h =
    go (normalize_external_pattern pattern) (normalize_external_pattern-IsRooted pattern)
  where
    go :
        (r : Result _ Text)
        → IfOk IsRooted r
        → IfOk
            (λ q. (is_blank q ≡ false) × (lift_path (normalize_external_pattern q) ≡ ok q))
            (lift_path r)
    go (ok q) rooted =
        (IsRooted-is_blank q rooted, rw (normalize_external_pattern_of_rooted q rooted))
    go (err e) rooted = tt

rule_pattern_of-IsSettled :
    (permission pattern : Text) (action : Action)
    → is_blank pattern ≡ false
    → IfOk (IsSettled permission action) (rule_pattern_of permission pattern action)
unfolding rule_pattern_of
rule_pattern_of-IsSettled permission pattern action h =
    lift_path-settled (text_eq permission (codes "external_directory") && is_allow action) pattern h

normalize_rule-IsRule : (index : ℕ) (v : Value) → IfOk IsRule (normalize_rule index v)
unfolding normalize_rule
normalize_rule-IsRule index (obj fs) =
    IfOk-require IsRule (has_rule_keys fs) (rule_keys index) _ λ _.
      IfOk-bind (λ s. is_blank s ≡ false) IsRule _ _ (text_field-filled _ _)
        λ permission filled.
          IfOk-bind (λ s. is_blank s ≡ false) IsRule _ _ (text_field-filled _ _)
            λ pattern filled'.
              IfOk-bind (λ _. Unit {0}) IsRule
                (action_field (get (codes "action") fs) (rule_action index)) _ (IfOk-trivial _)
                λ action _.
                  IfOk-bind (IsSettled permission action) IsRule _ _
                    (rule_pattern_of-IsSettled permission pattern action filled')
                    λ pattern' settled. record {
                      permission_filled = filled;
                      pattern_filled = settled.0;
                      pattern_settled = settled.1;
                    }
normalize_rule-IsRule index _ = tt

normalize_rules-IsRule : (index : ℕ) (vs : Items) → IfOk (All IsRule) (normalize_rules index vs)
unfolding normalize_rules
normalize_rules-IsRule index nil = tt
normalize_rules-IsRule index (cons v vs) =
    IfOk-bind IsRule (All IsRule) _ _ (normalize_rule-IsRule index v) λ rule valid.
      IfOk-bind (All IsRule) (All IsRule) _ _ (normalize_rules-IsRule (suc index) vs)
        λ rest valid'. (valid, valid')

-- The policy that is returned is well formed.
pub normalize_permission_policy-IsPolicy :
    (value : Value) → IfOk IsPolicy (normalize_permission_policy value)
unfolding normalize_permission_policy
normalize_permission_policy-IsPolicy value =
    IfOk-bind (λ _. Unit {0}) IsPolicy _ _ (IfOk-trivial (object value))
      λ raw _. IfOk-require IsPolicy (only_keys permission_keys raw) unknown_keys _ λ _.
        IfOk-bind (λ _. Unit {0}) IsPolicy _ _
          (IfOk-trivial (default_field (get (codes "default") raw)))
          λ default _.
            IfOk-bind (λ _. Unit {0}) IsPolicy _ _
              (IfOk-trivial (persistence_field (get (codes "persistence") raw)))
              λ persistence _.
                IfOk-bind IsBasis IsPolicy _ _
                  (basis_field-IsBasis (get (codes "approval_basis") raw))
                  λ basis filled.
                    IfOk-require IsPolicy (basis_present persistence basis) project_needs_basis _
                      λ there.
                        IfOk-bind (λ _. Unit {0}) IsPolicy _ _
                          (IfOk-trivial (rules_field (get (codes "rules") raw)))
                          λ items _.
                            IfOk-bind (All IsRule) IsPolicy _ _ (normalize_rules-IsRule 0 items)
                              λ rules valid. record {
                                basis_filled = filled;
                                basis_there = there;
                                rules_valid = valid;
                              }
