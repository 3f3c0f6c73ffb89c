-- ===== src/Assessment.antt =====
-- src/opencode_orchestrator/policy.py: `classify_risk` and `validate_allowed_paths`. `sorted` is
-- insertion by Python's order of texts, code point by code point.
pub mod Laws
pub mod Examples
use opencode_orchestrator.Prelude.{
  ℕ, Bool, true, false, not, ◌&&◌, ◌||◌, List, [], ◌∷◌, ◌++◌, any, keep, ltb, ◌==◌, is_empty,
  if◌then◌else◌,
}
use opencode_orchestrator.Prelude.Result.{Result, ok, err, require, ◌>>=◌, ◌>>◌}
use opencode_orchestrator.Text.{Text, codes, text_eq, is_one_of}
use opencode_orchestrator.Text.Fnmatch.{fnmatchcase}
use opencode_orchestrator.Value.{ℤ, pos, negsuc}

-- `s < t`
unfoldable pub text_lt : Text → Text → Bool
text_lt s [] = false
text_lt [] (b ∷ t) = true
text_lt (a ∷ s) (b ∷ t) = ltb a b || (a == b && text_lt s t)

unfoldable pub insert : Text → List Text → List Text
insert s [] = s ∷ []
insert s (t ∷ ts) = let rest = insert s ts in if text_lt t s then t ∷ rest else s ∷ t ∷ ts

unfoldable pub sorted : List Text → List Text
sorted [] = []
sorted (s ∷ ss) = insert s (sorted ss)

-- `set(paths)`, without an order
unfoldable pub set_of : List Text → List Text
set_of [] = []
set_of (s ∷ ss) = let rest = set_of ss in if is_one_of s rest then rest else s ∷ rest

pub data Level : Type 0 where
  low large high : Level

pub data RiskReason : Type 0 where
  high_risk_action : Text → RiskReason
  many_files many_lines cross_module public_interface dependency_change : RiskReason

pub record RiskAssessment : Type 0 where
  pub level : Level
  pub user_approval_required : Bool
  pub reasons : List RiskReason

pub data RiskError : Type 0 where
  negative_count : RiskError

pub record Change : Type 0 where
  pub file_count : ℤ
  pub line_count : ℤ
  pub crosses_modules : Bool
  pub changes_interface : Bool
  pub changes_dependencies : Bool
  pub high_risk_actions : List Text

abbrev pub is_negative : ℤ → Bool
is_negative (pos n) = false
is_negative (negsuc n) = true

-- `n > bound`
abbrev pub exceeds : ℤ → ℕ → Bool
exceeds (pos n) bound = ltb bound n
exceeds (negsuc n) bound = false

-- `if test: reasons.append(reason)`
abbrev pub reason_if : Bool → RiskReason → List RiskReason
reason_if test reason = if test then reason ∷ [] else []

unfoldable pub large_reasons : Change → List RiskReason
large_reasons c =
    reason_if (exceeds c.file_count 5) many_files
    ++ (reason_if (exceeds c.line_count 300) many_lines
        ++ (reason_if c.crosses_modules cross_module
            ++ (reason_if c.changes_interface public_interface
                ++ reason_if c.changes_dependencies dependency_change)))

abbrev action_reasons : List Text → List RiskReason
action_reasons [] = []
action_reasons (a ∷ as_) = high_risk_action a ∷ action_reasons as_

abbrev pub assessed : List RiskReason → RiskAssessment
assessed [] = record { level = low; user_approval_required = false; reasons = [] }
assessed (r ∷ rs) = record { level = large; user_approval_required = true; reasons = r ∷ rs }

-- once the counts are known not to be negative
unfoldable pub assess : Change → RiskAssessment
assess c =
    if not (is_empty c.high_risk_actions)
    then record {
      level = high;
      user_approval_required = true;
      reasons = action_reasons (sorted c.high_risk_actions);
    }
    else assessed (large_reasons c)

unfoldable pub classify_risk : Change → Result RiskError RiskAssessment
classify_risk c = do
  require (not (is_negative c.file_count || is_negative c.line_count)) negative_count
  ok (assess c)

unfoldable pub validate_allowed_paths : List Text → List Text → List Text
validate_allowed_paths changed_paths patterns =
    keep (λ path. not (any (fnmatchcase path) patterns)) (sorted (set_of changed_paths))
