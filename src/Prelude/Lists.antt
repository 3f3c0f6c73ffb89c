-- ===== src/Prelude/Lists.antt =====
-- Lists measured by native numbers, Boolean quantifiers over lists, and predicates by recursion.
use Prim.Native.Nat.{ℕ, zero, suc}
use mathlib.Core.Path.{◌≡◌, refl, subst}
use mathlib.Core.Option.{Option, none, some}
use mathlib.Core.Logic.{◌⊎◌, inl, inr}
use mathlib.Core.Bool.{Bool, true, false, ◌&&◌, ◌||◌}
use mathlib.Core.List.{List, [], ◌∷◌, ◌++◌}
use native.Mathlib.Omega.{arith}
use opencode_orchestrator.Prelude.Tests.{Bool-cases}

-- a disjunction whose second half is turned into something else
||-cases : (a b : Bool) {P : Type 0} → (a || b) ≡ true → (b ≡ true → P) → (a ≡ true) ⊎ P
||-cases true b h k = inl refl
||-cases false b h k = inr (k h)

-- Boolean quantifiers that run in a test, and predicates that compute to tuples and sums.
module _ {ℓ} {A : Type ℓ} where
  abbrev pub length : List A → ℕ
  length [] = 0
  length (_ ∷ xs) = suc (length xs)

  abbrev pub drop : ℕ → List A → List A
  drop zero xs = xs
  drop (suc n) [] = []
  drop (suc n) (x ∷ xs) = drop n xs

  abbrev pub is_empty : List A → Bool
  is_empty [] = true
  is_empty (_ ∷ _) = false

  unfoldable pub any : (A → Bool) → List A → Bool
  any p [] = false
  any p (x ∷ xs) = p x || any p xs

  unfoldable pub all : (A → Bool) → List A → Bool
  all p [] = true
  all p (x ∷ xs) = p x && all p xs

  unfoldable pub keep : (A → Bool) → List A → List A
  keep p [] = []
  keep p (x ∷ xs) = let rest = keep p xs in elim (p x) [ true ↦ x ∷ rest | false ↦ rest ]

module _ {ℓ κ} {A : Type ℓ} where
  abbrev pub All : (A → Type κ) → List A → Type κ
  All P [] = Unit
  All P (x ∷ xs) = P x × All P xs

module _ {ℓ} {A : Type ℓ} where
  abbrev pub Some : (A → Type 0) → List A → Type 0
  Some P [] = ⊥
  Some P (x ∷ xs) = P x ⊎ Some P xs

  All-keep_step :
      (p : A → Bool) (x : A) (rest : List A)
      → All (λ y. p y ≡ true) rest
      → All (λ y. p y ≡ true) (elim (p x) [ true ↦ x ∷ rest | false ↦ rest ])
  All-keep_step p x rest h = elim (Bool-cases (p x)) [ inl e ↦ rw e (e, h) | inr e ↦ rw e h ]

  pub all-All : (p : A → Bool) (xs : List A) → all p xs ≡ true → All (λ x. p x ≡ true) xs
  unfolding all
  all-All p [] h = tt
  all-All p (x ∷ xs) h = (ground arith, all-All p xs (ground arith))

  pub All-all : (p : A → Bool) (xs : List A) → All (λ x. p x ≡ true) xs → all p xs ≡ true
  unfolding all
  All-all p [] h = refl
  All-all p (x ∷ xs) h = ground (arith, All-all p xs h.1)

  pub any-false : (p : A → Bool) (xs : List A) → any p xs ≡ false → All (λ x. p x ≡ false) xs
  unfolding any
  any-false p [] h = tt
  any-false p (x ∷ xs) h = (ground arith, any-false p xs (ground arith))

  pub any-Some : (p : A → Bool) (xs : List A) → any p xs ≡ true → Some (λ x. p x ≡ true) xs
  unfolding any
  any-Some p [] h = ground arith
  any-Some p (x ∷ xs) h = ||-cases (p x) (any p xs) h (any-Some p xs)

  pub All-keep : (p : A → Bool) (xs : List A) → All (λ x. p x ≡ true) (keep p xs)
  unfolding keep
  All-keep p [] = tt
  All-keep p (x ∷ xs) = All-keep_step p x (keep p xs) (All-keep p xs)

module _ {ℓ} {A : Type ℓ} (P : A → Type 0) where
  pub All-append : (xs ys : List A) → All P xs → All P ys → All P (xs ++ ys)
  All-append [] ys hx hy = hy
  All-append (x ∷ xs) ys hx hy = (hx.0, All-append xs ys hx.1 hy)

  pub All-append_left : (xs ys : List A) → All P (xs ++ ys) → All P xs
  All-append_left [] ys h = tt
  All-append_left (x ∷ xs) ys h = (h.0, All-append_left xs ys h.1)

  pub All-map : {Q : A → Type 0} (f : (x : A) → P x → Q x) (xs : List A) → All P xs → All Q xs
  All-map f [] h = tt
  All-map f (x ∷ xs) h = (f x h.0, All-map f xs h.1)

-- `P` of the value of an option, if it has one.
module _ {ℓ} {A : Type ℓ} (P : A → Type 0) where
  abbrev pub IfSome : Option A → Type 0
  IfSome none = Unit
  IfSome (some x) = P x

  pub IfSome-some : (o : Option A) {x : A} → IfSome o → o ≡ some x → P x
  IfSome-some o h e = subst IfSome e h

module _ {ℓ} {A : Type ℓ} (P : A → Type 0) where
  pub All-append_right : (xs ys : List A) → All P (xs ++ ys) → All P ys
  All-append_right [] ys h = h
  All-append_right (x ∷ xs) ys h = All-append_right xs ys h.1

-- A relation of two lists, element by element; lists of different lengths are not related.
module _ {ℓ κ} {A : Type ℓ} {B : Type κ} where
  abbrev pub AllPairs : (A → B → Type 0) → List A → List B → Type 0
  AllPairs R [] [] = Unit
  AllPairs R [] (_ ∷ _) = ⊥
  AllPairs R (_ ∷ _) [] = ⊥
  AllPairs R (x ∷ xs) (y ∷ ys) = R x y × AllPairs R xs ys

pub Some-map {ℓ} :
    {A : Type ℓ} {P Q : A → Type 0} (f : (x : A) → P x → Q x) (xs : List A) → Some P xs → Some Q xs
Some-map f [] h = absurd h
Some-map f (x ∷ xs) (inl h) = inl (f x h)
Some-map f (x ∷ xs) (inr h) = inr (Some-map f xs h)

pub All-Some-absurd {ℓ} :
    {A : Type ℓ} (p : A → Bool) (xs : List A)
    → All (λ x. p x ≡ false) xs
    → Some (λ x. p x ≡ true) xs
    → ⊥
All-Some-absurd p [] h k = k
All-Some-absurd p (x ∷ xs) h (inl k) = cc (h.0)
All-Some-absurd p (x ∷ xs) h (inr k) = All-Some-absurd p xs h.1 k

pub All-zip {ℓ} :
    {A : Type ℓ} {P Q R : A → Type 0} (f : (x : A) → P x → Q x → R x) (xs : List A)
    → All P xs
    → All Q xs
    → All R xs
All-zip f [] h k = tt
All-zip f (x ∷ xs) h k = (f x h.0 k.0, All-zip f xs h.1 k.1)
