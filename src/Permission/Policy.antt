-- ===== src/Permission/Policy.antt =====
-- `normalize_permission_policy` of permission_policy.py. An error is
-- the check that raised, without its message; the policy that is returned is a record, and
-- `policy_value` is the `dict` that it stands for.
pub mod Valid
pub mod Roundtrip
use opencode_orchestrator.Prelude.{
  ℕ, suc, Bool, true, false, ◌&&◌, List, [], ◌∷◌, Option, none, some, all, leb, if◌then◌else◌,
}
use opencode_orchestrator.Prelude.Result.{Result, ok, err, require, ◌>>=◌, ◌>>◌}
use opencode_orchestrator.Text.{Text, codes, texts, text_eq, is_one_of, is_blank}
use opencode_orchestrator.Value.{
  pos, Value, null, int, str, arr, obj, Items, nil, cons, Fields, end, field, get, keys,
}
use opencode_orchestrator.Permission.Paths.{PathError, normalize_external_pattern}

pub data Action : Type 0 where
  allow ask deny : Action

pub data Persistence : Type 0 where
  task project : Persistence

pub record Rule : Type 0 where
  pub permission : Text
  pub pattern : Text
  pub action : Action

pub record PermissionPolicy : Type 0 where
  pub default : Action
  pub persistence : Persistence
  pub approval_basis : Option Text
  pub rules : List Rule

pub data PolicyError : Type 0 where
  not_object unknown_keys bad_default bad_persistence bad_basis project_needs_basis : PolicyError
  rules_not_array bad_probe bad_stall : PolicyError
  rule_keys rule_permission rule_pattern rule_action : ℕ → PolicyError
  bad_pattern : PathError → PolicyError

-- `_object`
unfoldable pub object : Value → Result PolicyError Fields
object null = ok end
object (obj fs) = ok fs
object _ = err not_object

unfoldable pub only_keys : List Text → Fields → Bool
only_keys allowed raw = all (λ k. is_one_of k allowed) (keys raw)

abbrev pub permission_keys : List Text
permission_keys = texts ("default" ∷ "persistence" ∷ "approval_basis" ∷ "rules" ∷ [])

abbrev pub rule_keys_expected : List Text
rule_keys_expected = texts ("permission" ∷ "pattern" ∷ "action" ∷ [])

unfoldable pub action_of : Text → Option Action
action_of s =
    if text_eq s (codes "allow")
    then some allow
    else if text_eq s (codes "ask")
    then some ask
    else if text_eq s (codes "deny")
    then some deny
    else none

unfoldable pub parse_action : Value → PolicyError → Result PolicyError Action
parse_action (str s) e = elim (action_of s) [ some a ↦ ok a | none ↦ err e ]
parse_action _ e = err e

unfoldable pub persistence_of : Text → Option Persistence
persistence_of s =
    if text_eq s (codes "task")
    then some task
    else if text_eq s (codes "project")
    then some project
    else none

-- the four values, each with its default
unfoldable pub default_field : Option Value → Result PolicyError Action
default_field none = ok allow
default_field (some v) = parse_action v bad_default

unfoldable pub persistence_field : Option Value → Result PolicyError Persistence
persistence_field none = ok task
persistence_field (some (str s)) = elim (persistence_of s) [
  | some p ↦ ok p
  | none ↦ err bad_persistence
]
persistence_field (some _) = err bad_persistence

unfoldable pub basis_field : Option Value → Result PolicyError (Option Text)
basis_field none = ok none
basis_field (some null) = ok none
basis_field (some (str s)) = if is_blank s then err bad_basis else ok (some s)
basis_field (some _) = err bad_basis

-- `persistence == "project" and not basis` raises
unfoldable pub basis_present : Persistence → Option Text → Bool
basis_present task basis = true
basis_present project none = false
basis_present project (some _) = true

unfoldable pub rules_field : Option Value → Result PolicyError Items
rules_field none = ok nil
rules_field (some (arr vs)) = ok vs
rules_field (some _) = err rules_not_array

unfoldable pub text_field : Option Value → PolicyError → Result PolicyError Text
text_field (some (str s)) e = if is_blank s then err e else ok s
text_field _ e = err e

unfoldable pub action_field : Option Value → PolicyError → Result PolicyError Action
action_field (some v) e = parse_action v e
action_field none e = err e

-- `set(rule) != {"permission", "pattern", "action"}`
unfoldable pub has_rule_keys : Fields → Bool
has_rule_keys fs =
    only_keys rule_keys_expected fs && all (λ k. is_one_of k (keys fs)) rule_keys_expected

abbrev is_allow : Action → Bool
is_allow allow = true
is_allow _ = false

abbrev lift_path : Result PathError Text → Result PolicyError Text
lift_path (ok s) = ok s
lift_path (err e) = err (bad_pattern e)

unfoldable pub rule_pattern_of : Text → Text → Action → Result PolicyError Text
rule_pattern_of permission pattern action =
    if text_eq permission (codes "external_directory") && is_allow action
    then lift_path (normalize_external_pattern pattern)
    else ok pattern

unfoldable pub normalize_rule : ℕ → Value → Result PolicyError Rule
normalize_rule index (obj fs) = do
  require (has_rule_keys fs) (rule_keys index)
  permission ← text_field (get (codes "permission") fs) (rule_permission index)
  pattern ← text_field (get (codes "pattern") fs) (rule_pattern index)
  action ← action_field (get (codes "action") fs) (rule_action index)
  pattern' ← rule_pattern_of permission pattern action
  ok (record { permission = permission; pattern = pattern'; action = action })
normalize_rule index _ = err (rule_keys index)

unfoldable pub normalize_rules : ℕ → Items → Result PolicyError (List Rule)
normalize_rules index nil = ok []
normalize_rules index (cons v vs) = do
  rule ← normalize_rule index v
  rest ← normalize_rules (suc index) vs
  ok (rule ∷ rest)

unfoldable pub normalize_permission_policy : Value → Result PolicyError PermissionPolicy
normalize_permission_policy value = do
  raw ← object value
  require (only_keys permission_keys raw) unknown_keys
  default ← default_field (get (codes "default") raw)
  persistence ← persistence_field (get (codes "persistence") raw)
  basis ← basis_field (get (codes "approval_basis") raw)
  require (basis_present persistence basis) project_needs_basis
  items ← rules_field (get (codes "rules") raw)
  rules ← normalize_rules 0 items
  ok (record {
    default = default;
    persistence = persistence;
    approval_basis = basis;
    rules = rules;
  })

-- The `dict` that a normalized policy is in the program.
abbrev pub action_text : Action → Text
action_text allow = codes "allow"
action_text ask = codes "ask"
action_text deny = codes "deny"

abbrev pub persistence_text : Persistence → Text
persistence_text task = codes "task"
persistence_text project = codes "project"

abbrev pub basis_value : Option Text → Value
basis_value none = null
basis_value (some s) = str s

abbrev pub rule_value : Rule → Value
rule_value r = obj (
    field (codes "permission") (str r.permission) (
      field (codes "pattern") (str r.pattern)
        (field (codes "action") (str (action_text r.action)) end)))

abbrev pub rule_values : List Rule → Items
rule_values [] = nil
rule_values (r ∷ rs) = cons (rule_value r) (rule_values rs)

unfoldable pub policy_value : PermissionPolicy → Value
policy_value p = obj (
    field (codes "default") (str (action_text p.default)) (
      field (codes "persistence") (str (persistence_text p.persistence)) (
        field (codes "approval_basis") (basis_value p.approval_basis)
          (field (codes "rules") (arr (rule_values p.rules)) end))))
