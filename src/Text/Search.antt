-- ===== src/Text/Search.antt =====
-- `part in text`: what stays true when the text is joined with others.
use opencode_orchestrator.Prelude.{
  ℕ, ◌≡◌, refl, true, false, List, [], ◌∷◌, ◌++◌, arith, Some, map, inl, inr,
}
use opencode_orchestrator.Text.{Text, starts_with, is_in, join}
use opencode_orchestrator.Text.Laws.{Lacks}

starts_with-append_right : (p s t : Text) → starts_with p s ≡ true → starts_with p (s ++ t) ≡ true
unfolding starts_with
starts_with-append_right [] s t h = refl
starts_with-append_right (a ∷ p) [] t h = cc
starts_with-append_right (a ∷ p) (b ∷ s) t h = ground (arith, starts_with-append_right p s t)

is_in_of_starts_with : (p s : Text) → starts_with p s ≡ true → is_in p s ≡ true
unfolding is_in
is_in_of_starts_with p [] h = h
is_in_of_starts_with p (b ∷ s) h = rw h

pub is_in-append_right : (p s t : Text) → is_in p s ≡ true → is_in p (s ++ t) ≡ true
unfolding is_in
is_in-append_right p [] t h = is_in_of_starts_with p t (starts_with-append_right p [] t h)
is_in-append_right p (b ∷ s) t h =
    ground (arith, starts_with-append_right p (b ∷ s) t, is_in-append_right p s t)

pub is_in-append_left : (p s t : Text) → is_in p t ≡ true → is_in p (s ++ t) ≡ true
unfolding is_in
is_in-append_left p [] t h = h
is_in-append_left p (b ∷ s) t h = ground (arith, is_in-append_left p s t)

-- What is in one of the texts is in their join.
pub is_in-join :
    (p sep : Text) (xs : List Text) (f : Text → Text)
    → Some (λ x. is_in p (f x) ≡ true) xs
    → is_in p (join sep (map f xs)) ≡ true
unfolding join
is_in-join p sep (x ∷ []) f (inl h) = h
is_in-join p sep (x ∷ []) f (inr h) = absurd h
is_in-join p sep (x ∷ y ∷ xs) f (inl h) = is_in-append_right p (f x) _ h
is_in-join p sep (x ∷ y ∷ xs) f (inr h) =
    is_in-append_left p (f x) _ (is_in-append_left p sep _ (is_in-join p sep (y ∷ xs) f h))
is_in-join p sep [] f h = absurd h

-- A character that is not in a text is none of its characters.
pub is_in-Lacks : (c : ℕ) (s : Text) → is_in (c ∷ []) s ≡ false → Lacks c s
unfolding is_in starts_with
is_in-Lacks c [] h = tt
is_in-Lacks c (d ∷ s) h = (ground arith, is_in-Lacks c s (ground arith))
