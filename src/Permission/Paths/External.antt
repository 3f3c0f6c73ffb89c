-- ===== src/Permission/Paths/External.antt =====
-- `_normalize_external_pattern` of permission_policy.py gives an absolute path of names, on which
-- normalizing again changes nothing.
use opencode_orchestrator.Prelude.{
  ◌≡◌, refl, true, false, List, [], ◌++◌, Option, none, some, All, IfSome, Bool-cases, inl, inr,
}
use opencode_orchestrator.Prelude.Result.{ok, IfOk, IfOk-ok}
use opencode_orchestrator.Text.{
  Text, starts_with, split, join, slash, is_blank, strip, drop_spaces, drop_last_spaces, is_space,
}
use opencode_orchestrator.Text.Laws.{split-Lacks}
use opencode_orchestrator.Permission.Paths.{
  resolve_part, resolve, absolute_path, normalize_external_pattern,
}
use opencode_orchestrator.Permission.Paths.Canonical.{IsName, resolve-IsName, resolve-split-join}

-- a slash, and then names with slashes between them
abbrev pub IsRooted : Text → Type 0
IsRooted q = (parts : List Text) × (q ≡ slash ++ join slash parts) × All IsName parts

absolute_path-IsRooted :
    (o : Option (List Text)) → IfSome (All IsName) o → IfOk IsRooted (absolute_path o)
unfolding absolute_path
absolute_path-IsRooted none h = tt
absolute_path-IsRooted (some parts) h = (parts, refl, h)

pub normalize_external_pattern-IsRooted :
    (pattern : Text) → IfOk IsRooted (normalize_external_pattern pattern)
unfolding normalize_external_pattern
normalize_external_pattern-IsRooted pattern = elim (Bool-cases (starts_with slash pattern)) [
  | inl absolute ↦ rw absolute (
      absolute_path-IsRooted _
        (resolve-IsName (split b'/' pattern) [] (split-Lacks b'/' pattern) tt))
  | inr relative ↦ rw relative tt
]

resolve-split-slash : (s : Text) → resolve (split b'/' (slash ++ s)) [] ≡ resolve (split b'/' s) []
unfolding resolve resolve_part split
resolve-split-slash s = refl

starts_with-slash : (s : Text) → starts_with slash (slash ++ s) ≡ true
unfolding starts_with
starts_with-slash s = refl

pub normalize_external_pattern_of_rooted :
    (q : Text) → IsRooted q → normalize_external_pattern q ≡ ok q
unfolding normalize_external_pattern absolute_path
normalize_external_pattern_of_rooted q (parts, joined, names) = rw (
  joined,
  starts_with-slash (join slash parts),
  resolve-split-slash (join slash parts),
  resolve-split-join parts names,
)

-- Normalizing an absolute pattern gives a pattern on which normalizing changes nothing.
pub normalize_external_pattern_idem :
    (pattern : Text) {q : Text}
    → normalize_external_pattern pattern ≡ ok q
    → normalize_external_pattern q ≡ ok q
normalize_external_pattern_idem pattern {q} e = normalize_external_pattern_of_rooted q (
    IfOk-ok IsRooted (normalize_external_pattern pattern)
      (normalize_external_pattern-IsRooted pattern) e)

slash-is_blank : (s : Text) → is_blank (slash ++ s) ≡ false
unfolding is_blank strip drop_spaces drop_last_spaces is_space
slash-is_blank s = refl

pub IsRooted-is_blank : (q : Text) → IsRooted q → is_blank q ≡ false
IsRooted-is_blank q (parts, joined, names) = rw joined (slash-is_blank (join slash parts))
