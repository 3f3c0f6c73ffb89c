-- ===== src/Permission/Paths/Canonical.antt =====
-- What the two normalizations of permission_policy.py give: paths whose components are plain names,
-- on which normalizing again changes nothing.
use mathlib.Core.List.{reverse, append-nil}
use opencode_orchestrator.Prelude.{
  ◌≡◌, refl, ap, ◌∙◌, false, ◌||◌, List, [], ◌∷◌, ◌++◌, Option, none, some, arith, All, ◌≢◌,
  IfSome-some, All-map, IfSome, is_empty, Bool-cases, inl, inr, ◌⊎◌, ||-false,
}
use opencode_orchestrator.Text.{Text, text_eq, starts_with, split, join, slash}
use opencode_orchestrator.Text.Laws.{
  Lacks, split-Lacks, split-join, reverse-cons-append, All-reverse,
}
use opencode_orchestrator.Permission.Paths.{
  dot, dot_dot, pop, resolve_part, resolve, relative_path, normalize_relative_path,
}

-- a component that names an entry of its directory
pub record IsName (part : Text) : Type 0 where
  pub filled : is_empty part ≡ false
  pub not_dot : text_eq part dot ≡ false
  pub not_dot_dot : text_eq part dot_dot ≡ false
  pub no_slash : Lacks b'/' part

-- every component between two slashes is a name
abbrev pub IsCanonical : Text → Type 0
IsCanonical path = All IsName (split b'/' path)

pop-IsName : (parts : List Text) → All IsName parts → IfSome (All IsName) (pop parts)
pop-IsName [] h = tt
pop-IsName (p ∷ ps) h = h.1

-- A round of the loop keeps the stack a list of names.
resolve_part-IsName :
    (part : Text) (parts : List Text)
    → Lacks b'/' part
    → All IsName parts
    → IfSome (All IsName) (resolve_part part parts)
unfolding resolve_part
resolve_part-IsName part parts l h = elim (Bool-cases (is_empty part || text_eq part dot)) [
  | inl skip ↦ rw skip h
  | inr keep ↦ elim (Bool-cases (text_eq part dot_dot)) [
    | inl up ↦ rw (keep, up) (pop-IsName parts h)
    | inr down ↦
        rw (keep, down)
          (let (filled, not_dot) = ||-false _ _ keep in
            (record { filled = filled; not_dot = not_dot; not_dot_dot = down; no_slash = l }, h))
  ]
]

pub resolve-IsName :
    (rest parts : List Text)
    → All (Lacks b'/') rest
    → All IsName parts
    → IfSome (All IsName) (resolve rest parts)
unfolding resolve
resolve-IsName [] parts l h = All-reverse IsName parts h
resolve-IsName (part ∷ rest) parts l h =
    go (resolve_part part parts) (resolve_part-IsName part parts l.0 h) (resolve-IsName rest)
  where
    go :
        (o : Option (List Text))
        → IfSome (All IsName) o
        → ((ps : List Text)
            → All (Lacks b'/') rest
            → All IsName ps
            → IfSome (All IsName) (resolve rest ps))
        → IfSome (All IsName) (elim o [ none ↦ none | some ps ↦ resolve rest ps ])
    go none k ih = tt
    go (some ps) k ih = ih ps l.1 k

resolve_part_of_IsName :
    (part : Text) (parts : List Text) → IsName part → resolve_part part parts ≡ some (part ∷ parts)
unfolding resolve_part
resolve_part_of_IsName part parts n = rw (n.filled, n.not_dot, n.not_dot_dot)

-- names alone are kept, in their order
resolve_of_IsName :
    (rest parts : List Text) → All IsName rest → resolve rest parts ≡ some (reverse parts ++ rest)
unfolding resolve
resolve_of_IsName [] parts h = rw append-nil
resolve_of_IsName (part ∷ rest) parts h =
    rw (resolve_part_of_IsName part parts h.0, resolve)
      (resolve_of_IsName rest (part ∷ parts) h.1 ∙ ap some (reverse-cons-append part parts rest))

IsName-Lacks : (parts : List Text) → All IsName parts → All (Lacks b'/') parts
IsName-Lacks parts = All-map IsName {Q = Lacks b'/'} (λ p n. n.no_slash) parts

-- The joined path of a list of names splits into them again.
pub split-join_of_IsName :
    (part : Text) (parts : List Text)
    → All IsName (part ∷ parts)
    → split b'/' (join slash (part ∷ parts)) ≡ part ∷ parts
split-join_of_IsName part parts h = split-join b'/' part parts (IsName-Lacks (part ∷ parts) h)

resolve-nil : resolve (split b'/' (join slash [])) [] ≡ some []
unfolding resolve resolve_part split join
resolve-nil = refl

-- a joined list of names, resolved again
pub resolve-split-join :
    (parts : List Text) → All IsName parts → resolve (split b'/' (join slash parts)) [] ≡ some parts
resolve-split-join [] h = resolve-nil
resolve-split-join (p ∷ ps) h = rw (split-join_of_IsName p ps h) (resolve_of_IsName (p ∷ ps) [] h)

-- no name begins with a slash, and so no joined list of names does
starts_with-slash-append : (p s : Text) → IsName p → starts_with slash (p ++ s) ≡ false
unfolding starts_with
starts_with-slash-append [] s n = cc (n.filled)
starts_with-slash-append (c ∷ p) s n = ground (arith, n.no_slash.0)

pub starts_with-slash-join :
    (parts : List Text) → All IsName parts → starts_with slash (join slash parts) ≡ false
unfolding join starts_with
starts_with-slash-join [] h = refl
starts_with-slash-join (p ∷ []) h = rw (append-nil p) at (starts_with-slash-append p [] h.0)
starts_with-slash-join (p ∷ q ∷ ps) h = starts_with-slash-append p _ h.0

-- a path that is a joined list of names
abbrev pub IsJoined : Text → Type 0
IsJoined q = (parts : List Text) × (q ≡ join slash parts) × All IsName parts

relative_path-IsJoined :
    (o : Option (List Text)) → IfSome (All IsName) o → IfSome IsJoined (relative_path o)
unfolding relative_path
relative_path-IsJoined none h = tt
relative_path-IsJoined (some parts) h = (parts, refl, h)

pub normalize_relative_path-IsJoined :
    (path : Text) → IfSome IsJoined (normalize_relative_path path)
unfolding normalize_relative_path
normalize_relative_path-IsJoined path = elim (Bool-cases (starts_with slash path)) [
  | inl absolute ↦ rw absolute tt
  | inr relative ↦
      rw relative
        (relative_path-IsJoined _ (resolve-IsName (split b'/' path) [] (split-Lacks b'/' path) tt))
]

normalize_relative_path-join :
    (parts : List Text)
    → All IsName parts
    → normalize_relative_path (join slash parts) ≡ some (join slash parts)
unfolding normalize_relative_path relative_path
normalize_relative_path-join parts h =
    rw (starts_with-slash-join parts h, resolve-split-join parts h)

-- Normalizing a relative path gives a path on which normalizing changes nothing.
pub normalize_relative_path_idem :
    (path : Text) {q : Text}
    → normalize_relative_path path ≡ some q
    → normalize_relative_path q ≡ some q
normalize_relative_path_idem path {q} e =
    let (parts, joined, names) =
      IfSome-some IsJoined (normalize_relative_path path) (normalize_relative_path-IsJoined path)
        e in
    rw joined (normalize_relative_path-join parts names)

-- The components of a joined list of names are names.
pub split-IsName_of_joined : (q : Text) → IsJoined q → q ≢ [] → IsCanonical q
unfolding join
split-IsName_of_joined q ([], joined, names) h = absurd (h joined)
split-IsName_of_joined q (p ∷ ps, joined, names) h =
    rw (joined, split-join_of_IsName p ps names) names

-- A relative path that is accepted is empty, or has names alone as its components: no `..`, no `.`.
pub normalize_relative_path-IsCanonical :
    (path : Text) {q : Text} → normalize_relative_path path ≡ some q → (q ≡ []) ⊎ IsCanonical q
normalize_relative_path-IsCanonical path {q = []} e = inl refl
normalize_relative_path-IsCanonical path {q = c ∷ q} e = inr (
    split-IsName_of_joined (c ∷ q)
      (IfSome-some IsJoined (normalize_relative_path path) (normalize_relative_path-IsJoined path)
        e)
      (λ h. cc))
