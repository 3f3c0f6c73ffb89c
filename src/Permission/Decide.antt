-- ===== src/Permission/Decide.antt =====
-- The parts of `evaluate_permission` of permission_policy.py that read the request and the contract,
-- and the rules and decisions at its end: `_rule_matches`, `_normalize_request_targets` and the loop
-- in which the last matching rule wins. A reason stands for the source's text.
pub mod LastMatch
use opencode_orchestrator.Prelude.{
  Bool, true, false, not, ◌&&◌, ◌||◌, List, [], ◌∷◌, Option, none, some, any, all, is_empty,
  if◌then◌else◌,
}
use opencode_orchestrator.Prelude.Result.{Result, ok, err}
use opencode_orchestrator.Text.{Text, codes, texts, text_eq, is_one_of, is_blank}
use opencode_orchestrator.Text.Fnmatch.{fnmatchcase}
use opencode_orchestrator.Value.{Value, str, arr, obj, Items, nil, cons, get, keys, to_list}
use opencode_orchestrator.Permission.Paths.{normalize_external_pattern}
use opencode_orchestrator.Permission.Policy.{
  Action, allow, ask, deny, Persistence, task, project, Rule, PermissionPolicy, PolicyError,
}
use opencode_orchestrator.Permission.Edit.{edit_relative_targets, edit_targets_allowed, push}
use opencode_orchestrator.Permission.ReadOnly.{bash_is_safe_read_only}
use opencode_orchestrator.Permission.Runner.{bash_is_exact_contract_test}

pub data Response : Type 0 where
  once always reject : Response

pub data Reason : Type 0 where
  indeterminate_request unknown_permission indeterminate_target indeterminate_bash : Reason
  high_risk_action edit_outside_contract explicit_contract_prohibition unsupported_bash : Reason
  external_directory_not_declared explicit_rule_deny explicit_rule_ask explicit_rule_allow : Reason
  default_deny default_ask default_allow : Reason

pub record PermissionDecision : Type 0 where
  pub action : Action
  pub response : Option Response
  pub reason : Reason

pub data EvaluationError : Type 0 where
  bad_policy : PolicyError → EvaluationError
  not_iterable : EvaluationError

abbrev pub known_permissions : List Text
known_permissions = texts (
    "read" ∷ "edit" ∷ "glob" ∷ "grep" ∷ "list" ∷ "bash" ∷ "task" ∷ "external_directory"
    ∷ "todowrite" ∷ "question" ∷ "webfetch" ∷ "websearch" ∷ "lsp" ∷ "doom_loop" ∷ "skill" ∷ [])

abbrev pub asking : Reason → PermissionDecision
asking r = record { action = ask; response = none; reason = r }

abbrev pub denying : Reason → PermissionDecision
denying r = record { action = deny; response = some reject; reason = r }

-- `isinstance(permission, str)` and one of the known names
unfoldable pub permission_of : Option Value → Option Text
permission_of (some (str s)) = if is_one_of s known_permissions then some s else none
permission_of _ = none

unfoldable pub target_texts : Items → Option (List Text)
target_texts nil = some []
target_texts (cons (str s) vs) = if is_blank s then none else push s (target_texts vs)
target_texts (cons _ vs) = none

-- a list that is not empty, of texts that are not blank
unfoldable pub targets_of : Option Value → Option (List Text)
targets_of (some (arr (cons v vs))) = target_texts (cons v vs)
targets_of _ = none

unfoldable pub normalize_targets : List Text → Option (List Text)
normalize_targets [] = some []
normalize_targets (t ∷ ts) = elim (normalize_external_pattern t) [
  | err e ↦ none
  | ok n ↦ push n (normalize_targets ts)
]

unfoldable pub normalize_request_targets : Text → List Text → Option (List Text)
normalize_request_targets permission targets =
    if not (text_eq permission (codes "external_directory"))
    then some targets
    else normalize_targets targets

abbrev single_texts : Text → List Value
single_texts [] = []
single_texts (c ∷ s) = str (c ∷ []) ∷ single_texts s

abbrev key_values : List Text → List Value
key_values [] = []
key_values (k ∷ ks) = str k ∷ key_values ks

-- what `for item in value` goes through
unfoldable pub iterate : Value → Result EvaluationError (List Value)
iterate (arr vs) = ok (to_list vs)
iterate (str s) = ok (single_texts s)
iterate (obj fs) = ok (key_values (keys fs))
iterate _ = err not_iterable

unfoldable pub get_or_empty : Option Value → Value
get_or_empty none = arr nil
get_or_empty (some v) = v

-- `task_contract.get("allowed_paths", [])`
unfoldable pub allowed_paths : Value → Value
allowed_paths (obj contract) = get_or_empty (get (codes "allowed_paths") contract)
allowed_paths _ = arr nil

unfoldable pub rule_matches : Rule → Text → List Text → Bool
rule_matches rule permission targets =
    (text_eq rule.permission permission || text_eq rule.permission (codes "*"))
    && not (is_empty targets)
    && all (λ t. fnmatchcase t rule.pattern) targets

-- The loop over the rules: a later match replaces an earlier one.
unfoldable pub last_match : (Rule → Bool) → Option Rule → List Rule → Option Rule
last_match p matched [] = matched
last_match p matched (rule ∷ rules) = last_match p (if p rule then some rule else matched) rules

unfoldable pub same_texts : List Text → List Text → Bool
same_texts [] [] = true
same_texts (s ∷ ss) (t ∷ ts) = text_eq s t && same_texts ss ts
same_texts _ _ = false

-- The targets as they are normalized, and for edits also as they were sent.
unfoldable pub rule_target_variants : Text → List Text → List Text → List (List Text)
rule_target_variants permission targets normalized =
    if text_eq permission (codes "edit") && not (same_texts normalized targets)
    then normalized ∷ targets ∷ []
    else normalized ∷ []

unfoldable pub matched_rule : Text → List Text → List Text → List Rule → Option Rule
matched_rule permission targets normalized rules =
    last_match
      (λ rule.
        any (rule_matches rule permission) (rule_target_variants permission targets normalized))
      none rules

unfoldable pub allow_response : Persistence → Response
allow_response project = always
allow_response task = once

abbrev decide_action : Persistence → Action → Reason → Reason → Reason → PermissionDecision
decide_action p allow a k d = record {
  action = allow;
  response = some (allow_response p);
  reason = a;
}
decide_action p ask a k d = asking k
decide_action p deny a k d = denying d

-- an access outside the worktree wants a rule of its own
unfoldable pub external_decision : Persistence → Option Rule → PermissionDecision
external_decision p none = asking external_directory_not_declared
external_decision p (some rule) =
    decide_action p rule.action explicit_rule_allow external_directory_not_declared
      explicit_rule_deny

unfoldable pub ordinary_decision : PermissionPolicy → Option Rule → PermissionDecision
ordinary_decision policy none =
    decide_action policy.persistence policy.default default_allow default_ask default_deny
ordinary_decision policy (some rule) =
    decide_action policy.persistence rule.action explicit_rule_allow explicit_rule_ask
      explicit_rule_deny

unfoldable pub decide : PermissionPolicy → Text → Option Rule → PermissionDecision
decide policy permission matched =
    if text_eq permission (codes "external_directory")
    then external_decision policy.persistence matched
    else ordinary_decision policy matched

unfoldable pub bash_supported : Text → Value → Bool
bash_supported command contract =
    bash_is_exact_contract_test command contract || bash_is_safe_read_only command

-- the contract's `allowed_paths`, for edits; `none` is outside
unfoldable pub edit_scope : Text → List Text → List Text → Value → Option Text → Option (List Text)
edit_scope permission targets normalized contract worktree_path =
    if not (text_eq permission (codes "edit"))
    then some normalized
    else if not (edit_targets_allowed targets (allowed_paths contract) worktree_path)
    then none
    else edit_relative_targets targets worktree_path
