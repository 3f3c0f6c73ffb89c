-- ===== src/Assessment/Laws.antt =====
-- What policy.py makes of a change: when the user has to approve it, and which paths are reported.
use opencode_orchestrator.Prelude.{
  ◌≡◌, refl, sym, ap, subst, ◌∙◌, Bool, true, false, not, ◌||◌, List, [], ◌∷◌, ◌++◌, any, keep,
  is_empty, Some, inl, inr, ◌↔◌, ◌⊎◌, Bool-cases, any-Some, Some-map, if_ind,
}
use opencode_orchestrator.Prelude.Result.{ok}
use opencode_orchestrator.Text.{Text, text_eq, is_one_of}
use opencode_orchestrator.Text.Laws.{text_eq-eq}
use opencode_orchestrator.Text.Fnmatch.{fnmatchcase}
use opencode_orchestrator.Assessment.{
  text_lt, insert, sorted, set_of, RiskReason, many_files, many_lines, cross_module,
  public_interface, dependency_change, reason_if, assessed, assess, RiskAssessment, Change,
  is_negative, exceeds, large_reasons, classify_risk, validate_allowed_paths,
}

-- the tests that make a change one for the user
abbrev pub wants_approval : Change → Bool
wants_approval c =
    not (is_empty c.high_risk_actions)
    || (exceeds c.file_count 5
        || (exceeds c.line_count 300
            || (c.crosses_modules || (c.changes_interface || c.changes_dependencies))))

assessed-approval :
    (rs : List RiskReason) → (assessed rs).user_approval_required ≡ not (is_empty rs)
assessed-approval [] = refl
assessed-approval (r ∷ rs) = refl

large_reasons-is_empty :
    (c : Change)
    → not (is_empty (large_reasons c)) ≡ (
        exceeds c.file_count 5
        || (exceeds c.line_count 300
            || (c.crosses_modules || (c.changes_interface || c.changes_dependencies))))
unfolding large_reasons
large_reasons-is_empty c =
    tests (exceeds c.file_count 5) (exceeds c.line_count 300) c.crosses_modules c.changes_interface
      c.changes_dependencies
  where
    tests :
        (a b d e f : Bool)
        → not (
            is_empty (
              reason_if a many_files
              ++ (reason_if b many_lines
                  ++ (reason_if d cross_module
                      ++ (reason_if e public_interface ++ reason_if f dependency_change)))))
          ≡ (a || (b || (d || (e || f))))
    tests true b d e f = refl
    tests false true d e f = refl
    tests false false true e f = refl
    tests false false false true f = refl
    tests false false false false true = refl
    tests false false false false false = refl

assess-approval : (c : Change) → (assess c).user_approval_required ≡ wants_approval c
unfolding assess
assess-approval c =
    if_ind (λ (a : RiskAssessment). a.user_approval_required ≡ wants_approval c)
      (not (is_empty c.high_risk_actions)) _ _ (λ risky. rw risky refl)
      (λ tame. rw tame (assessed-approval (large_reasons c) ∙ large_reasons-is_empty c))

-- A change with no negative count is classified, and the user has to approve it exactly if it has a
-- high-risk action, more than 5 files or 300 lines, or crosses modules, changes a public interface or
-- a dependency.
pub classify_risk-approval :
    (c : Change)
    → is_negative c.file_count ≡ false
    → is_negative c.line_count ≡ false
    → (a : RiskAssessment) × (classify_risk c ≡ ok a)
      × (a.user_approval_required ≡ wants_approval c)
unfolding classify_risk
classify_risk-approval c f l = (assess c, rw (f, l), assess-approval c)

abbrev pub In : Text → List Text → Type 0
In x xs = Some (λ y. y ≡ x) xs

insert-In : (x s : Text) (ts : List Text) → In x (insert s ts) → (s ≡ x) ⊎ In x ts
unfolding insert
insert-In x s [] = λ h. h
insert-In x s (t ∷ ts) =
    if_ind (λ l. In x l → (s ≡ x) ⊎ In x (t ∷ ts)) (text_lt t s) _ _
      (λ _. behind (insert-In x s ts)) (λ _ h. h)
  where
    behind :
        (In x (insert s ts) → (s ≡ x) ⊎ In x ts)
        → (t ≡ x) ⊎ In x (insert s ts)
        → (s ≡ x) ⊎ ((t ≡ x) ⊎ In x ts)
    behind rec (inl e) = inr (inl e)
    behind rec (inr h) = elim (rec h) [ inl e ↦ inl e | inr k ↦ inr (inr k) ]

In-insert : (x s : Text) (ts : List Text) → (s ≡ x) ⊎ In x ts → In x (insert s ts)
unfolding insert
In-insert x s [] h = h
In-insert x s (t ∷ ts) h =
    if_ind (In x) (text_lt t s) _ _ (λ _. behind (In-insert x s ts) h) (λ _. h)
  where
    behind :
        ((s ≡ x) ⊎ In x ts → In x (insert s ts))
        → (s ≡ x) ⊎ ((t ≡ x) ⊎ In x ts)
        → (t ≡ x) ⊎ In x (insert s ts)
    behind rec (inl e) = inr (rec (inl e))
    behind rec (inr (inl e)) = inl e
    behind rec (inr (inr k)) = inr (rec (inr k))

sorted-In : (x : Text) (ts : List Text) → In x (sorted ts) ↔ In x ts
unfolding sorted
sorted-In x [] = (λ h. h, λ h. h)
sorted-In x (t ∷ ts) =
    let (out, into) = sorted-In x ts in
    (
      λ h. elim (insert-In x t (sorted ts) h) [ inl e ↦ inl e | inr k ↦ inr (out k) ],
      λ h. In-insert x t (sorted ts) (elim h [ inl e ↦ inl e | inr k ↦ inr (into k) ]),
    )

is_one_of-In : (x : Text) (ts : List Text) → is_one_of x ts ≡ true → In x ts
unfolding is_one_of
is_one_of-In x ts h = Some-map (λ y e. sym (text_eq-eq x y e)) ts (any-Some (text_eq x) ts h)

set_of-In : (x : Text) (ts : List Text) → In x (set_of ts) ↔ In x ts
unfolding set_of
set_of-In x [] = (λ h. h, λ h. h)
set_of-In x (t ∷ ts) =
    if_ind (λ l. In x l ↔ ((t ≡ x) ⊎ In x ts)) (is_one_of t (set_of ts)) _ _
      (present (set_of-In x ts)) (absent (set_of-In x ts))
  where
    present :
        (In x (set_of ts) ↔ In x ts)
        → is_one_of t (set_of ts) ≡ true
        → In x (set_of ts) ↔ ((t ≡ x) ⊎ In x ts)
    present (out, into) here = (
      λ h. inr (out h),
      λ h. elim h [
        | inl e ↦ subst (λ y. In y (set_of ts)) e (is_one_of-In t (set_of ts) here)
        | inr k ↦ into k
      ],
    )

    absent :
        (In x (set_of ts) ↔ In x ts)
        → is_one_of t (set_of ts) ≡ false
        → ((t ≡ x) ⊎ In x (set_of ts)) ↔ ((t ≡ x) ⊎ In x ts)
    absent (out, into) _ = (
      λ h. elim h [ inl e ↦ inl e | inr k ↦ inr (out k) ],
      λ h. elim h [ inl e ↦ inl e | inr k ↦ inr (into k) ],
    )

keep-In :
    (p : Text → Bool) (x : Text) (ts : List Text) → In x (keep p ts) ↔ (In x ts × (p x ≡ true))
unfolding keep
keep-In p x [] = (λ h. absurd h, λ h. absurd h.0)
keep-In p x (t ∷ ts) = elim (Bool-cases (p t)) [
  | inl q ↦ rw (q, keep) (kept (keep-In p x ts) q)
  | inr q ↦ rw (q, keep) (dropped (keep-In p x ts) q)
]
  where
    kept :
        (In x (keep p ts) ↔ (In x ts × (p x ≡ true)))
        → p t ≡ true
        → ((t ≡ x) ⊎ In x (keep p ts)) ↔ (((t ≡ x) ⊎ In x ts) × (p x ≡ true))
    kept (out, into) q = (
      λ h. elim h [
        | inl e ↦ (inl e, subst (λ y. p y ≡ true) e q)
        | inr k ↦ (inr (out k).0, (out k).1)
      ],
      λ h. elim h.0 [ inl e ↦ inl e | inr k ↦ inr (into (k, h.1)) ],
    )

    dropped :
        (In x (keep p ts) ↔ (In x ts × (p x ≡ true)))
        → p t ≡ false
        → In x (keep p ts) ↔ (((t ≡ x) ⊎ In x ts) × (p x ≡ true))
    dropped (out, into) q = (
      λ h. (inr (out h).0, (out h).1),
      λ h. elim h.0 [ inl e ↦ absurd (cc (q, e, h.1)) | inr k ↦ into (k, h.1) ],
    )

-- A path is reported as a violation exactly if it was changed and no pattern matches it.
pub validate_allowed_paths_iff :
    (changed_paths patterns : List Text) (path : Text)
    → In path (validate_allowed_paths changed_paths patterns)
      ↔ (In path changed_paths × (any (fnmatchcase path) patterns ≡ false))
unfolding validate_allowed_paths
validate_allowed_paths_iff changed_paths patterns path =
    let (out, into) =
      keep-In (λ q. not (any (fnmatchcase q) patterns)) path (sorted (set_of changed_paths)) in
    let (unsort, sort) = sorted-In path (set_of changed_paths) in
    let (unset, to_set) = set_of-In path changed_paths in
    (
      λ h. (unset (unsort (out h).0), not-true (any (fnmatchcase path) patterns) (out h).1),
      λ h. into (sort (to_set h.0), ap not h.1),
    )
  where
    not-true : (b : Bool) → not b ≡ true → b ≡ false
    not-true true h = cc
    not-true false h = refl
