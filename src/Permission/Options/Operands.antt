-- ===== src/Permission/Options/Operands.antt =====
-- What `_options_and_operands` and `_relative_bash_operand` of permission_policy.py accept.
use mathlib.Core.List.{reverse}
use opencode_orchestrator.Prelude.{
  ℕ, ◌≡◌, ◌≢◌, refl, true, false, ◌||◌, List, [], ◌∷◌, Option, none, some, arith, All, any-false,
  IfSome, IfSome-some, Bool-cases, inl, inr, ◌⊎◌, is_empty,
}
use opencode_orchestrator.Text.{
  Text, codes, text_eq, is_one_of, starts_with, split, slash, join, replace,
}
use opencode_orchestrator.Text.Laws.{Lacks, text_eq-eq, text_eq_symm}
use opencode_orchestrator.Permission.Paths.{
  dot, dot_dot, resolve_part, resolve, relative_path, normalize_relative_path,
}
use opencode_orchestrator.Permission.Options.{
  Grammar, Kind, separator, flag, takes_value, refused, operand, option_kind, kind, Place, reading,
  value, add_operand, options_and_operands_from, options_and_operands, relative_bash_operand,
}

-- a token that no program reads as an option
abbrev pub IsOperand : Text → Type 0
IsOperand t = (starts_with (codes "-") t ≡ false) ⊎ (t ≡ codes "-")

option_kind-operand : (g : Grammar) (t : Text) → option_kind g t ≡ operand → IsOperand t
unfolding option_kind
option_kind-operand g t h = ground (arith, text_eq-eq t (codes "-"))

option_kind-separator :
    (g : Grammar) (t : Text) → text_eq t (codes "--") ≡ false → option_kind g t ≢ separator
unfolding option_kind
option_kind-separator g t n h = ground arith

add_operand-IsOperand :
    (t : Text) (o : Option (List Text))
    → IsOperand t
    → IfSome (All IsOperand) o
    → IfSome (All IsOperand) (add_operand t o)
add_operand-IsOperand t none i h = tt
add_operand-IsOperand t (some ts) i h = (i, h)

-- while options are read
abbrev ReadsOptions : Place → Type 0
ReadsOptions (reading true) = Unit
ReadsOptions (reading false) = ⊥
ReadsOptions value = Unit

operands_from-IsOperand :
    (g : Grammar) (place : Place) (arguments : List Text)
    → ReadsOptions place
    → All (λ t. text_eq t (codes "--") ≡ false) arguments
    → IfSome (All IsOperand) (options_and_operands_from g place arguments)
unfolding options_and_operands_from kind
operands_from-IsOperand g value [] o h = tt
operands_from-IsOperand g (reading true) [] o h = tt
operands_from-IsOperand g (reading false) arguments o h = absurd o
operands_from-IsOperand g value (t ∷ ts) o h = operands_from-IsOperand g (reading true) ts tt h.1
operands_from-IsOperand g (reading true) (t ∷ ts) o h =
    go (option_kind g t) refl (operands_from-IsOperand g (reading true) ts tt h.1)
      (operands_from-IsOperand g value ts tt h.1)
  where
    go :
        (k : Kind)
        → option_kind g t ≡ k
        → IfSome (All IsOperand) (options_and_operands_from g (reading true) ts)
        → IfSome (All IsOperand) (options_and_operands_from g value ts)
        → IfSome (All IsOperand) (elim k [
          | separator ↦ options_and_operands_from g (reading false) ts
          | flag ↦ options_and_operands_from g (reading true) ts
          | takes_value ↦ options_and_operands_from g value ts
          | refused ↦ none
          | operand ↦ add_operand t (options_and_operands_from g (reading true) ts)
        ])
    go separator q a b = absurd (option_kind-separator g t h.0 q)
    go flag q a b = a
    go takes_value q a b = b
    go refused q a b = tt
    go operand q a b =
        add_operand-IsOperand t (options_and_operands_from g (reading true) ts)
          (option_kind-operand g t q) a

-- Without a `--` among the arguments, what is taken for an operand is never an option.
pub options_and_operands-IsOperand :
    (g : Grammar) (arguments operands : List Text)
    → All (λ t. text_eq t (codes "--") ≡ false) arguments
    → options_and_operands g arguments ≡ some operands
    → All IsOperand operands
unfolding options_and_operands
options_and_operands-IsOperand g arguments operands h e =
    IfSome-some (All IsOperand) _ (operands_from-IsOperand g (reading true) arguments tt h) e

replace_of_Lacks : (old new : ℕ) (s : Text) → Lacks old s → replace old new s ≡ s
unfolding replace
replace_of_Lacks old new [] h = refl
replace_of_Lacks old new (c ∷ s) h = rw (h.0, replace_of_Lacks old new s h.1)

resolve_part_of_no_dot_dot :
    (p : Text) (parts : List Text)
    → text_eq dot_dot p ≡ false
    → (out : List Text) × (resolve_part p parts ≡ some out)
unfolding resolve_part
resolve_part_of_no_dot_dot p parts h = elim (Bool-cases (is_empty p || text_eq p dot)) [
  | inl skip ↦ (parts, rw skip)
  | inr keep ↦ (p ∷ parts, rw (keep, text_eq_symm p dot_dot, h))
]

-- Without a `..` among the parts, nothing is taken off the stack, and so nothing is missed there.
resolve_of_no_dot_dot :
    (rest parts : List Text)
    → All (λ p. text_eq dot_dot p ≡ false) rest
    → (out : List Text) × (resolve rest parts ≡ some out)
unfolding resolve
resolve_of_no_dot_dot [] parts h = (reverse parts, refl)
resolve_of_no_dot_dot (p ∷ ps) parts h =
    let (next, e) = resolve_part_of_no_dot_dot p parts h.0 in
    let (out, q) = resolve_of_no_dot_dot ps next h.1 in (out, rw (e, resolve) q)

-- An operand that a read-only command may have, and that has no backslash in it, is a path that
-- stays below the directory in which the command runs: it normalizes, with no escape from the root.
pub relative_bash_operand-normalizes :
    (path : Text)
    → Lacks 92 path
    → relative_bash_operand path ≡ true
    → (q : Text) × (normalize_relative_path path ≡ some q)
unfolding relative_bash_operand normalize_relative_path relative_path is_one_of
relative_bash_operand-normalizes path l h =
    let plain : is_one_of dot_dot (split b'/' path) ≡ false =
      rw (replace_of_Lacks 92 b'/' path l) at (no_dots path h) in
    let (out, e) =
      resolve_of_no_dot_dot (split b'/' path) []
        (any-false (text_eq dot_dot) (split b'/' path) plain) in
    (join slash out, rw (no_slash path h, e))
  where
    no_dots :
        (v : Text)
        → relative_bash_operand v ≡ true
        → is_one_of dot_dot (split b'/' (replace 92 b'/' v)) ≡ false
    no_dots v k = ground arith

    no_slash : (v : Text) → relative_bash_operand v ≡ true → starts_with slash v ≡ false
    no_slash v k = ground arith
