-- ===== src/Permission/Edit/Confined.antt =====
-- Edits stay inside the worktree: what `_edit_relative_targets` of permission_policy.py accepts.
use mathlib.Core.List.{append_assoc}
use opencode_orchestrator.Prelude.{
  ◌≡◌, ◌≢◌, refl, sym, ap, subst, ◌∙◌, true, false, not, ◌||◌, List, [], ◌∷◌, ◌++◌, Option, none,
  some, arith, All, AllPairs, IfSome, IfSome-some, All-append_right, Bool-cases, inl, inr, ◌⊎◌,
}
use opencode_orchestrator.Prelude.Result.{Result, ok, err, IfOk}
use opencode_orchestrator.Text.{Text, text_eq, starts_with, split, join, slash}
use opencode_orchestrator.Text.Laws.{split-append-split, starts_with-split}
use opencode_orchestrator.Permission.Paths.{
  PathError, normalize_external_pattern, normalize_relative_path,
}
use opencode_orchestrator.Permission.Paths.Canonical.{
  IsName, IsCanonical, IsJoined, split-join_of_IsName, split-IsName_of_joined,
  normalize_relative_path-IsJoined,
}
use opencode_orchestrator.Permission.Paths.External.{IsRooted, normalize_external_pattern-IsRooted}
use opencode_orchestrator.Permission.Edit.{
  worktree_root, root_prefix, strip_root, absolute_target, nonempty, relative_target, push,
  relative_targets, edit_relative_targets,
}

-- The path `rel` that stands for a target, under a root: its components are names, and an absolute
-- target is the root with `rel` behind it.
pub record IsConfined (root : Option Text) (target rel : Text) : Type 0 where
  pub canonical : IsCanonical rel
  pub stands_for :
      ((starts_with slash target ≡ true)
        × ((r : Text) × (root ≡ some r)
            × (normalize_external_pattern target ≡ ok (root_prefix r ++ rel))))
      ⊎ ((starts_with slash target ≡ false) × (normalize_relative_path target ≡ some rel))

abbrev tail : Text → Text
tail [] = []
tail (c ∷ s) = s

-- what stands behind a slash in a joined list of names is names too
joined-IsCanonical :
    (parts : List Text) (s rel : Text)
    → All IsName parts
    → join slash parts ≡ s ++ (b'/' ∷ rel)
    → IsCanonical rel
unfolding join
joined-IsCanonical [] [] rel names e = cc
joined-IsCanonical [] (c ∷ s) rel names e = cc
joined-IsCanonical (p ∷ ps) s rel names e =
    All-append_right IsName (split b'/' s) (split b'/' rel) (
      subst (All IsName)
        (sym (split-join_of_IsName p ps names) ∙ ap (split b'/') e ∙ split-append-split b'/' s rel)
        names)

root_prefix-top : (root : Text) → text_eq root slash ≡ true → root_prefix root ≡ slash
unfolding root_prefix
root_prefix-top root h = rw h

root_prefix-below : (root : Text) → text_eq root slash ≡ false → root_prefix root ≡ root ++ slash
unfolding root_prefix
root_prefix-below root h = rw h

strip_root-IsCanonical :
    (root normalized rel : Text)
    → IsRooted root
    → IsRooted normalized
    → rel ≢ []
    → normalized ≡ root_prefix root ++ rel
    → IsCanonical rel
strip_root-IsCanonical root normalized rel (rparts, rjoined, _) (parts, joined, names) filled e =
    elim (Bool-cases (text_eq root slash)) [
      | inl top ↦
          split-IsName_of_joined rel
            (
              parts,
              ap tail (ap (λ r. r ++ rel) (sym (root_prefix-top root top)) ∙ sym e ∙ joined),
              names,
            )
            filled
      | inr below ↦ joined-IsCanonical parts (join slash rparts) rel names (under below)
    ]
  where
    under : text_eq root slash ≡ false → join slash parts ≡ join slash rparts ++ (b'/' ∷ rel)
    under below = ap tail (
        sym joined
        ∙ e
        ∙ ap (λ r. r ++ rel) (root_prefix-below root below)
        ∙ append_assoc root slash rel
        ∙ ap (λ r. r ++ (b'/' ∷ rel)) rjoined)

-- the part of an absolute target under its root
strip_root-append :
    (root normalized : Text)
    → IfSome (λ rel. normalized ≡ root_prefix root ++ rel) (strip_root root normalized)
unfolding strip_root
strip_root-append root normalized =
    elim (Bool-cases (text_eq normalized root || not (starts_with (root_prefix root) normalized))) [
      | inl outside ↦ rw outside tt
      | inr inside ↦ rw inside (starts_with-split (root_prefix root) normalized (ground arith))
    ]

-- The absolute target `target` under the root `r` is `rel`.
abbrev Under : Option Text → Text → Text → Type 0
Under root target rel =
    (r : Text) × (root ≡ some r)
    × (normalize_external_pattern target ≡ ok (root_prefix r ++ rel))
    × (rel ≢ [] → IsCanonical rel)

abbrev RootIsRooted : Option Text → Type 0
RootIsRooted none = Unit
RootIsRooted (some r) = IsRooted r

absolute_target-Under :
    (root : Option Text) (target : Text)
    → RootIsRooted root
    → IfSome (Under root target) (absolute_target root target)
unfolding absolute_target
absolute_target-Under none target h = tt
absolute_target-Under (some r) target h =
    go (normalize_external_pattern target) refl (normalize_external_pattern-IsRooted target)
  where
    go :
        (n : Result PathError Text)
        → normalize_external_pattern target ≡ n
        → IfOk IsRooted n
        → IfSome (Under (some r) target) (elim n [ ok m ↦ strip_root r m | err e ↦ none ])
    go (err e) q k = tt
    go (ok m) q k = within (strip_root r m) (strip_root-append r m)
      where
        within :
            (o : Option Text)
            → IfSome (λ rel. m ≡ root_prefix r ++ rel) o
            → IfSome (Under (some r) target) o
        within none _ = tt
        within (some rel) a =
            (r, refl, q ∙ ap ok a, λ filled. strip_root-IsCanonical r m rel h k filled a)

nonempty-IsConfined :
    (root : Option Text) (target : Text) (o : Option Text)
    → IfSome (λ rel. rel ≢ [] → IsConfined root target rel) o
    → IfSome (IsConfined root target) (nonempty o)
unfolding nonempty
nonempty-IsConfined root target none h = tt
nonempty-IsConfined root target (some []) h = tt
nonempty-IsConfined root target (some (c ∷ s)) h = h (λ e. cc)

IfSome-map {ℓ} :
    {A : Type ℓ} (P Q : A → Type 0) (o : Option A)
    → ((x : A) → o ≡ some x → P x → Q x)
    → IfSome P o
    → IfSome Q o
IfSome-map P Q none f h = tt
IfSome-map P Q (some x) f h = f x refl h

relative_target-IsConfined :
    (root : Option Text) (target : Text)
    → RootIsRooted root
    → IfSome (IsConfined root target) (relative_target root target)
unfolding relative_target
relative_target-IsConfined root target h =
    nonempty-IsConfined root target _ (elim (Bool-cases (starts_with slash target)) [
      | inl is_absolute ↦ rw is_absolute (
          IfSome-map (Under root target) (λ rel. rel ≢ [] → IsConfined root target rel)
            (absolute_target root target)
            (λ rel _ (r, e, n, c) filled. record {
              canonical = c filled;
              stands_for = inl (is_absolute, (r, e, n));
            })
            (absolute_target-Under root target h))
      | inr is_relative ↦ rw is_relative (
          IfSome-map IsJoined (λ rel. rel ≢ [] → IsConfined root target rel)
            (normalize_relative_path target)
            (λ rel e joined filled. record {
              canonical = split-IsName_of_joined rel joined filled;
              stands_for = inr (is_relative, e);
            })
            (normalize_relative_path-IsJoined target))
    ])

push-AllPairs :
    (root : Option Text) (t r : Text) (ts : List Text) (o : Option (List Text))
    → IsConfined root t r
    → IfSome (AllPairs (IsConfined root) ts) o
    → IfSome (AllPairs (IsConfined root) (t ∷ ts)) (push r o)
push-AllPairs root t r ts none c h = tt
push-AllPairs root t r ts (some rs) c h = (c, h)

relative_targets-IsConfined :
    (root : Option Text) (targets : List Text)
    → RootIsRooted root
    → IfSome (AllPairs (IsConfined root) targets) (relative_targets root targets)
unfolding relative_targets
relative_targets-IsConfined root [] h = tt
relative_targets-IsConfined root (t ∷ ts) h =
    go (relative_target root t) (relative_target-IsConfined root t h)
      (relative_targets-IsConfined root ts h)
  where
    go :
        (o : Option Text)
        → IfSome (IsConfined root t) o
        → IfSome (AllPairs (IsConfined root) ts) (relative_targets root ts)
        → IfSome
            (AllPairs (IsConfined root) (t ∷ ts))
            (elim o [ none ↦ none | some r ↦ push r (relative_targets root ts) ])
    go none c k = tt
    go (some r) c k = push-AllPairs root t r ts (relative_targets root ts) c k

worktree_root-RootIsRooted :
    (worktree_path : Option Text) → IfSome RootIsRooted (worktree_root worktree_path)
unfolding worktree_root
worktree_root-RootIsRooted none = tt
worktree_root-RootIsRooted (some path) =
    go (normalize_external_pattern path) (normalize_external_pattern-IsRooted path)
  where
    go :
        (n : Result PathError Text)
        → IfOk IsRooted n
        → IfSome RootIsRooted (elim n [ ok root ↦ some (some root) | err e ↦ none ])
    go (ok root) h = h
    go (err e) h = tt

-- Edit targets that are accepted stay in the worktree. There is a root, the normalized worktree path
-- if one is given, and the targets and the paths that stand for them are confined under it, pair by
-- pair: a path's components are names (none is empty, `.` or `..`), an absolute target normalizes to
-- the root with the path behind it, and a relative target to the path itself.
pub edit_relative_targets-IsConfined :
    (targets : List Text) (worktree_path : Option Text) (rels : List Text)
    → edit_relative_targets targets worktree_path ≡ some rels
    → (root : Option Text) × (worktree_root worktree_path ≡ some root)
      × AllPairs (IsConfined root) targets rels
unfolding edit_relative_targets
edit_relative_targets-IsConfined targets worktree_path rels e =
    go (worktree_root worktree_path) refl (worktree_root-RootIsRooted worktree_path) e
  where
    go :
        (o : Option (Option Text))
        → worktree_root worktree_path ≡ o
        → IfSome RootIsRooted o
        → elim o [ none ↦ none | some root ↦ relative_targets root targets ] ≡ some rels
        → (root : Option Text) × (worktree_root worktree_path ≡ some root)
          × AllPairs (IsConfined root) targets rels
    go none q h k = cc
    go (some root) q h k = (
      root,
      q,
      IfSome-some (AllPairs (IsConfined root) targets) (relative_targets root targets)
          (relative_targets-IsConfined root targets h) k,
    )
