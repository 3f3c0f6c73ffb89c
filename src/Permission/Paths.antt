-- ===== src/Permission/Paths.antt =====
-- `_normalize_external_pattern` and `_normalize_relative_path` of permission_policy.py.
pub mod Canonical
pub mod External
use opencode_orchestrator.Prelude.{
  ◌||◌, List, [], ◌∷◌, ◌++◌, Option, none, some, is_empty, if◌then◌else◌,
}
use opencode_orchestrator.Prelude.Result.{Result, ok, err}
use opencode_orchestrator.Text.{Text, codes, text_eq, starts_with, split, join, slash}
use mathlib.Core.List.{reverse}

pub data PathError : Type 0 where
  not_absolute escapes_root : PathError

abbrev pub dot : Text
dot = codes "."

abbrev pub dot_dot : Text
dot_dot = codes ".."

abbrev pub pop : List Text → Option (List Text)
pop [] = none
pop (_ ∷ parts) = some parts

-- One round of the loop over `path.split("/")`. `parts` has its last element first; `none` is the
-- `..` that finds it empty.
unfoldable pub resolve_part : Text → List Text → Option (List Text)
resolve_part part parts =
    if is_empty part || text_eq part dot
    then some parts
    else if text_eq part dot_dot
    then pop parts
    else some (part ∷ parts)

unfoldable pub resolve : List Text → List Text → Option (List Text)
resolve [] parts = some (reverse parts)
resolve (part ∷ rest) parts = elim (resolve_part part parts) [
  | none ↦ none
  | some parts' ↦ resolve rest parts'
]

unfoldable pub absolute_path : Option (List Text) → Result PathError Text
absolute_path none = err escapes_root
absolute_path (some parts) = ok (slash ++ join slash parts)

unfoldable pub normalize_external_pattern : Text → Result PathError Text
normalize_external_pattern pattern =
    if starts_with slash pattern
    then absolute_path (resolve (split b'/' pattern) [])
    else err not_absolute

unfoldable pub relative_path : Option (List Text) → Option Text
relative_path none = none
relative_path (some parts) = some (join slash parts)

unfoldable pub normalize_relative_path : Text → Option Text
normalize_relative_path path =
    if starts_with slash path then none else relative_path (resolve (split b'/' path) [])
