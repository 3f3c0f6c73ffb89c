-- ===== src/Permission/Edit.antt =====
-- `_edit_relative_targets` and `_edit_targets_allowed` of permission_policy.py: edits stay inside
-- the worktree and inside the contract's `allowed_paths`. `False` and `None` are `none` where the
-- source stops early.
pub mod Confined
use opencode_orchestrator.Prelude.{
  Bool, false, not, ◌||◌, List, [], ◌∷◌, ◌++◌, Option, none, some, all, any, if◌then◌else◌, length,
  drop,
}
use opencode_orchestrator.Prelude.Result.{ok, err}
use opencode_orchestrator.Text.{Text, text_eq, starts_with, slash, is_blank}
use opencode_orchestrator.Text.Fnmatch.{fnmatchcase}
use opencode_orchestrator.Value.{Value, str, arr, Items, nil, cons}
use opencode_orchestrator.Permission.Paths.{normalize_external_pattern, normalize_relative_path}

-- `root`: `none` is a worktree path that does not normalize, `some none` no worktree path
unfoldable pub worktree_root : Option Text → Option (Option Text)
worktree_root none = some none
worktree_root (some path) = elim (normalize_external_pattern path) [
  | ok root ↦ some (some root)
  | err e ↦ none
]

unfoldable pub root_prefix : Text → Text
root_prefix root = if text_eq root slash then slash else root ++ slash

-- An absolute target, once normalized, without the root and its slash.
unfoldable pub strip_root : Text → Text → Option Text
strip_root root normalized =
    if text_eq normalized root || not (starts_with (root_prefix root) normalized)
    then none
    else some (drop (length (root_prefix root)) normalized)

unfoldable pub absolute_target : Option Text → Text → Option Text
absolute_target none target = none
absolute_target (some root) target = elim (normalize_external_pattern target) [
  | ok normalized ↦ strip_root root normalized
  | err e ↦ none
]

unfoldable pub nonempty : Option Text → Option Text
nonempty none = none
nonempty (some []) = none
nonempty (some (c ∷ s)) = some (c ∷ s)

unfoldable pub relative_target : Option Text → Text → Option Text
relative_target root target = nonempty (
    if starts_with slash target
    then absolute_target root target
    else normalize_relative_path target)

abbrev pub push {ℓ} : {A : Type ℓ} → A → Option (List A) → Option (List A)
push x none = none
push x (some xs) = some (x ∷ xs)

unfoldable pub relative_targets : Option Text → List Text → Option (List Text)
relative_targets root [] = some []
relative_targets root (t ∷ ts) = elim (relative_target root t) [
  | none ↦ none
  | some r ↦ push r (relative_targets root ts)
]

unfoldable pub edit_relative_targets : List Text → Option Text → Option (List Text)
edit_relative_targets targets worktree_path = elim (worktree_root worktree_path) [
  | none ↦ none
  | some root ↦ relative_targets root targets
]

-- One pattern of the contract; the root itself becomes the empty pattern.
unfoldable pub absolute_pattern : Option Text → Text → Option Text
absolute_pattern none pattern = none
absolute_pattern (some root) pattern = elim (normalize_external_pattern pattern) [
  | err e ↦ none
  | ok absolute ↦
      if text_eq absolute root
      then some []
      else if starts_with (root_prefix root) absolute
      then some (drop (length (root_prefix root)) absolute)
      else none
]

unfoldable pub allowed_pattern : Option Text → Value → Option Text
allowed_pattern root (str pattern) =
    if is_blank pattern
    then none
    else if starts_with slash pattern
    then absolute_pattern root pattern
    else normalize_relative_path pattern
allowed_pattern root _ = none

unfoldable pub allowed_patterns : Option Text → Items → Option (List Text)
allowed_patterns root nil = some []
allowed_patterns root (cons v vs) = elim (allowed_pattern root v) [
  | none ↦ none
  | some p ↦ push p (allowed_patterns root vs)
]

unfoldable pub within : List Text → List Text → Bool
within patterns targets = all (λ t. any (λ p. fnmatchcase t p) patterns) targets

-- `not isinstance(allowed, list) or not allowed` refuses
unfoldable pub patterns_of : Option Text → Value → Option (List Text)
patterns_of root (arr nil) = none
patterns_of root (arr (cons v vs)) = allowed_patterns root (cons v vs)
patterns_of root _ = none

unfoldable pub edit_targets_allowed : List Text → Value → Option Text → Bool
edit_targets_allowed targets allowed worktree_path =
    elim (edit_relative_targets targets worktree_path) [
      | none ↦ false
      | some relative ↦ elim (worktree_root worktree_path) [
        | none ↦ false
        | some root ↦ elim (patterns_of root allowed) [
          | none ↦ false
          | some patterns ↦ within patterns relative
        ]
      ]
    ]
