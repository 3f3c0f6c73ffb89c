-- ===== src/Text/Laws.antt =====
-- Laws of the text operations: equality, splitting and joining.
mod Tests
pub mod Strip
use mathlib.Core.List.{reverse, reverse-cons, append-nil, append_assoc}
use opencode_orchestrator.Prelude.{
  ℕ, suc, ◌≡◌, ◌≢◌, refl, sym, ◌↔◌, Bool, true, false, not, List, [], ◌∷◌, ◌++◌, Option, none, some,
  arith, ap, ◌==◌, ==_iff, ◌&&◌, All, All-append, is_empty, Bool-cases, inl, inr, if◌then◌else◌,
  ◌⊎◌, ◌∙◌, length, drop,
}
use opencode_orchestrator.Text.{Text, cons_head, split, join, text_eq, starts_with}

pub text_eq-eq : (s t : Text) → text_eq s t ≡ true → s ≡ t
unfolding text_eq
text_eq-eq [] [] h = refl
text_eq-eq [] (b ∷ t) h = cc
text_eq-eq (a ∷ s) [] h = cc
text_eq-eq (a ∷ s) (b ∷ t) h = ground (arith, text_eq-eq s t)

pub text_eq_refl : (s : Text) → text_eq s s ≡ true
unfolding text_eq
text_eq_refl [] = refl
text_eq_refl (a ∷ s) = ground (arith, text_eq_refl s)

pub text_eq_iff : (s t : Text) → (text_eq s t ≡ true) ↔ (s ≡ t)
text_eq_iff s t = (text_eq-eq s t, λ e. rw e (text_eq_refl t))

pub text_eq_symm : (s t : Text) → text_eq s t ≡ text_eq t s
unfolding text_eq
text_eq_symm [] [] = refl
text_eq_symm [] (b ∷ t) = refl
text_eq_symm (a ∷ s) [] = refl
text_eq_symm (a ∷ s) (b ∷ t) = ground (arith, text_eq_symm s t)

-- a text without the character `c`
abbrev pub Lacks : ℕ → Text → Type 0
Lacks c = All (λ d. (d == c) ≡ false)

All-Lacks-cons_head :
    (c d : ℕ) (parts : List Text)
    → (d == c) ≡ false
    → All (Lacks c) parts
    → All (Lacks c) (cons_head d parts)
All-Lacks-cons_head c d [] e h = ((e, tt), tt)
All-Lacks-cons_head c d (p ∷ ps) e h = ((e, h.0), h.1)

-- The parts of a split have no separator in them.
pub split-Lacks : (c : ℕ) (s : Text) → All (Lacks c) (split c s)
unfolding split
split-Lacks c [] = (tt, tt)
split-Lacks c (d ∷ s) = elim (Bool-cases (d == c)) [
  | inl e ↦ rw e (tt, split-Lacks c s)
  | inr e ↦ rw e (All-Lacks-cons_head c d (split c s) e (split-Lacks c s))
]

pub split_of_Lacks : (c : ℕ) (s : Text) → Lacks c s → split c s ≡ s ∷ []
unfolding split
split_of_Lacks c [] h = refl
split_of_Lacks c (d ∷ s) h = rw (h.0, split_of_Lacks c s h.1)

pub split-append : (c : ℕ) (s t : Text) → Lacks c s → split c (s ++ (c ∷ t)) ≡ s ∷ split c t
unfolding split
split-append c [] t h = ground arith
split-append c (d ∷ s) t h = rw (h.0, split-append c s t h.1)

-- Joining parts that lack the separator and splitting again gives the parts.
pub split-join :
    (c : ℕ) (part : Text) (parts : List Text)
    → All (Lacks c) (part ∷ parts)
    → split c (join (c ∷ []) (part ∷ parts)) ≡ part ∷ parts
unfolding join
split-join c part [] h = split_of_Lacks c part h.0
split-join c part (next ∷ parts) h =
    split-append c part (join (c ∷ []) (next ∷ parts)) h.0
    ∙ ap (λ l. part ∷ l) (split-join c next parts h.1)

pub reverse-cons-append {ℓ} :
    {A : Type ℓ} (x : A) (xs ys : List A) → reverse (x ∷ xs) ++ ys ≡ reverse xs ++ (x ∷ ys)
reverse-cons-append x xs ys = rw reverse-cons (append_assoc (reverse xs) (x ∷ []) ys)

pub All-reverse {ℓ} : {A : Type ℓ} (P : A → Type 0) (xs : List A) → All P xs → All P (reverse xs)
All-reverse P [] h = tt
All-reverse P (x ∷ xs) h =
    rw reverse-cons (All-append P (reverse xs) (x ∷ []) (All-reverse P xs h.1) (h.0, tt))

split-ne-nil : (c : ℕ) (s : Text) → split c s ≢ []
unfolding split
split-ne-nil c [] h = cc
split-ne-nil c (d ∷ s) h = ground (arith, cons_head-ne-nil d (split c s))
  where
    cons_head-ne-nil : (e : ℕ) (l : List Text) → cons_head e l ≢ []
    cons_head-ne-nil e [] h = cc
    cons_head-ne-nil e (p ∷ ps) h = cc

cons_head-append :
    (d : ℕ) (ps qs : List Text) → ps ≢ [] → cons_head d (ps ++ qs) ≡ cons_head d ps ++ qs
cons_head-append d [] qs h = absurd (h refl)
cons_head-append d (p ∷ ps) qs h = refl

-- A split at a separator in the middle is the two splits, one after the other.
pub split-append-split : (c : ℕ) (s t : Text) → split c (s ++ (c ∷ t)) ≡ split c s ++ split c t
unfolding split
split-append-split c [] t = ground arith
split-append-split c (d ∷ s) t = elim (Bool-cases (d == c)) [
  | inl e ↦ rw e (ap (λ l. [] ∷ l) (split-append-split c s t))
  | inr e ↦
      rw (e, split-append-split c s t)
        (cons_head-append d (split c s) (split c t) (split-ne-nil c s))
]

starts_with-append : (p s : Text) → starts_with p (p ++ s) ≡ true
unfolding starts_with
starts_with-append [] s = refl
starts_with-append (a ∷ p) s = ground (arith, starts_with-append p s)

-- What a text that starts with a prefix is.
pub starts_with-split : (p s : Text) → starts_with p s ≡ true → s ≡ p ++ drop (length p) s
unfolding starts_with
starts_with-split [] s h = refl
starts_with-split (a ∷ p) [] h = cc
starts_with-split (a ∷ p) (b ∷ s) h = ground (arith, starts_with-split p s)
