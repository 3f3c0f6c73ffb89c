-- ===== src/Text/Laws/Strip.antt =====
-- What `strip` and `rstrip` of Python leave: a text's first and last characters.
use opencode_orchestrator.Prelude.{
  if◌then◌else◌, ℕ, ◌≡◌, refl, sym, subst, Bool, true, false, ◌&&◌, [], ◌∷◌, ◌⊎◌, inl, inr,
  Bool-cases, is_empty, ap,
}
use opencode_orchestrator.Text.{
  Text, text_eq, is_space, drop_spaces, drop_last_spaces, strip, is_blank,
}
use opencode_orchestrator.Text.Laws.{text_eq-eq}

-- there is a first character, and it is none of these
abbrev pub BeginsOutside : (ℕ → Bool) → Text → Type 0
BeginsOutside p [] = ⊥
BeginsOutside p (c ∷ s) = p c ≡ false

-- if there is a last character, it is none of these
abbrev pub EndsOutside : (ℕ → Bool) → Text → Type 0
EndsOutside p [] = Unit
EndsOutside p (c ∷ []) = p c ≡ false
EndsOutside p (c ∷ d ∷ s) = EndsOutside p (d ∷ s)

-- a text that begins and ends with a character that is no space
abbrev pub IsTrimmed : Text → Type 0
IsTrimmed s = BeginsOutside is_space s × EndsOutside is_space s

drop_spaces-cases : (s : Text) → (drop_spaces s ≡ []) ⊎ BeginsOutside is_space (drop_spaces s)
unfolding drop_spaces
drop_spaces-cases [] = inl refl
drop_spaces-cases (c ∷ s) = elim (Bool-cases (is_space c)) [
  | inl space ↦ rw space (drop_spaces-cases s)
  | inr filled ↦ rw filled (inr filled)
]

drop_last_spaces-EndsOutside : (s : Text) → EndsOutside is_space (drop_last_spaces s)
unfolding drop_last_spaces
drop_last_spaces-EndsOutside [] = tt
drop_last_spaces-EndsOutside (c ∷ s) = go (drop_last_spaces s) (drop_last_spaces-EndsOutside s)
  where
    go :
        (rest : Text)
        → EndsOutside is_space rest
        → EndsOutside is_space (if is_space c && is_empty rest then [] else c ∷ rest)
    go [] h = elim (Bool-cases (is_space c)) [
      | inl space ↦ rw space tt
      | inr filled ↦ rw filled filled
    ]
    go (d ∷ t) h = elim (Bool-cases (is_space c)) [
      | inl space ↦ rw space h
      | inr filled ↦ rw filled h
    ]

drop_last_spaces-BeginsOutside :
    (s : Text) → BeginsOutside is_space s → BeginsOutside is_space (drop_last_spaces s)
unfolding drop_last_spaces
drop_last_spaces-BeginsOutside [] h = absurd h
drop_last_spaces-BeginsOutside (c ∷ s) h = rw h h

-- A text that is not blank and that `strip` leaves as it is, is trimmed.
pub strip-IsTrimmed : (s : Text) → is_blank s ≡ false → text_eq s (strip s) ≡ true → IsTrimmed s
unfolding strip is_blank drop_last_spaces
strip-IsTrimmed s filled same =
    subst IsTrimmed (sym (text_eq-eq s (strip s) same))
      (begins (drop_spaces-cases s), drop_last_spaces-EndsOutside (drop_spaces s))
  where
    begins :
        (drop_spaces s ≡ []) ⊎ BeginsOutside is_space (drop_spaces s)
        → BeginsOutside is_space (drop_last_spaces (drop_spaces s))
    begins (inr h) = drop_last_spaces-BeginsOutside (drop_spaces s) h
    begins (inl e) =
        let blank : is_empty (strip s) ≡ true = ap (λ t. is_empty (drop_last_spaces t)) e in
        cc (blank, filled)
