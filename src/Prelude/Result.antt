-- ===== src/Prelude/Result.antt =====
-- A result of code that may raise: the value, or the error.
use mathlib.Core.Path.{◌≡◌, refl, subst}
use mathlib.Core.Bool.{Bool, true, false}

pub data Result {ℓ} (E A : Type ℓ) : Type ℓ where
  ok : A → Result E A
  err : E → Result E A

-- `if not test: raise error`
abbrev pub require {ℓ} : {E : Type ℓ} → Bool → E → Result E Unit
require false error = err error
require true error = ok tt

infixl 5 ◌>>=◌
abbrev pub ◌>>=◌ {ℓ} : {E A B : Type ℓ} → Result E A → (A → Result E B) → Result E B
err error >>= next = err error
ok value >>= next = next value

-- A block that did not raise: its first part did not, and neither did the rest.
pub >>=-eq-ok {ℓ} :
    {E A B : Type ℓ} (first : Result E A) (next : A → Result E B) {out : B}
    → (first >>= next) ≡ ok out
    → (value : A) × (first ≡ ok value) × (next value ≡ ok out)
>>=-eq-ok (err error) next h = cc
>>=-eq-ok (ok value) next h = (value, refl, h)

infixl 5 ◌>>◌
abbrev pub ◌>>◌ {ℓ} : {E B : Type ℓ} → Result E Unit → Result E B → Result E B
action >> rest = action >>= λ _. rest

pub require-eq-ok {ℓ} :
    {E B : Type ℓ} (test : Bool) (error : E) (rest : Result E B) {out : B}
    → (require test error >> rest) ≡ ok out
    → (test ≡ true) × (rest ≡ ok out)
require-eq-ok false error rest h = cc
require-eq-ok true error rest h = (refl, h)

-- `P` of the value of a result, if it is no error.
module _ {ℓ} {E A : Type ℓ} (P : A → Type 0) where
  abbrev pub IfOk : Result E A → Type 0
  IfOk (ok a) = P a
  IfOk (err e) = Unit

  pub IfOk-ok : (r : Result E A) {a : A} → IfOk r → r ≡ ok a → P a
  IfOk-ok r h e = subst IfOk e h

-- the parts of a block keep what holds of their results
pub IfOk-bind {ℓ} :
    {E A B : Type ℓ} (P : A → Type 0) (Q : B → Type 0) (m : Result E A) (f : A → Result E B)
    → IfOk P m
    → ((a : A) → P a → IfOk Q (f a))
    → IfOk Q (m >>= f)
IfOk-bind P Q (ok a) f h k = k a h
IfOk-bind P Q (err e) f h k = tt

pub IfOk-require {ℓ} :
    {E B : Type ℓ} (Q : B → Type 0) (t : Bool) (e : E) (k : Result E B)
    → (t ≡ true → IfOk Q k)
    → IfOk Q (require t e >> k)
IfOk-require Q true e k h = h refl
IfOk-require Q false e k h = tt

pub IfOk-trivial {ℓ} : {E A : Type ℓ} (m : Result E A) → IfOk (λ _. Unit {0}) m
IfOk-trivial (ok a) = tt
IfOk-trivial (err e) = tt

-- a part whose result the rest does not need
pub IfOk-skip {ℓ} :
    {E A B : Type ℓ} (Q : B → Type 0) (m : Result E A) (f : A → Result E B)
    → ((a : A) → IfOk Q (f a))
    → IfOk Q (m >>= f)
IfOk-skip Q (ok a) f k = k a
IfOk-skip Q (err e) f k = tt

pub IfOk-const {ℓ} : {E A : Type ℓ} {P : Type 0} (m : Result E A) → P → IfOk (λ _. P) m
IfOk-const (ok a) h = h
IfOk-const (err e) h = tt

pub IfOk-map {ℓ} :
    {E A : Type ℓ} {P Q : A → Type 0} (f : (a : A) → P a → Q a) (m : Result E A)
    → IfOk P m
    → IfOk Q m
IfOk-map f (ok a) h = f a h
IfOk-map f (err e) h = tt
