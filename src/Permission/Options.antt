-- ===== src/Permission/Options.antt =====
-- `_bash_is_indeterminate`, `_relative_bash_operand` and `_options_and_operands` of
-- permission_policy.py.
pub mod Operands
use opencode_orchestrator.Prelude.{
  Bool, true, false, not, ◌&&◌, ◌||◌, List, [], ◌∷◌, ◌++◌, Option, none, some, any, is_empty,
  if◌then◌else◌,
}
use opencode_orchestrator.Text.{Text, codes, text_eq, is_one_of, starts_with, is_in, split, replace}
use opencode_orchestrator.Text.Shlex.{shlex_split}

-- The shell syntax that makes a command's effect depend on the state at run time.
abbrev pub shell_markers : List Text
shell_markers =
    codes ";"
    ∷ codes "&&"
    ∷ codes "||"
    ∷ codes "|"
    ∷ codes ">"
    ∷ codes "<"
    ∷ codes "&"
    ∷ (10 ∷ [])
    ∷ (13 ∷ [])
    ∷ codes "$"
    ∷ codes "*"
    ∷ codes "?"
    ∷ codes "`"
    ∷ codes "$("
    ∷ codes "${"
    ∷ codes "["
    ∷ codes "]"
    ∷ codes "{"
    ∷ codes "}"
    ∷ codes "~"
    ∷ []

unfoldable pub has_words : Option (List Text) → Bool
has_words none = false
has_words (some []) = false
has_words (some (_ ∷ _)) = true

unfoldable pub bash_is_indeterminate : Text → Bool
bash_is_indeterminate command =
    if not (has_words (shlex_split command)) then true else any (λ m. is_in m command) shell_markers

unfoldable pub relative_bash_operand : Text → Bool
relative_bash_operand value =
    if is_empty value
      || (starts_with (codes "/") value || starts_with (codes "~") value)
      || is_in (codes "://") value
    then false
    else not (is_one_of (codes "..") (split b'/' (replace 92 b'/' value)))

-- One command's options: `flags` stand alone, `valued` take the next argument, or `--name=value`,
-- and `short_valued` may have their value directly behind them.
pub record Grammar : Type 0 where
  pub flags : List Text
  pub valued : List Text
  pub short_valued : List Text

pub data Kind : Type 0 where
  separator flag takes_value refused operand : Kind

unfoldable pub has_inline_value : Text → List Text → Bool
has_inline_value token valued =
    any (λ o. starts_with (codes "--") o && starts_with (o ++ codes "=") token) valued

unfoldable pub has_short_value : Text → List Text → Bool
has_short_value token short = any (λ o. starts_with o token && not (text_eq token o)) short

-- What the loop does with a token while options are still read, in the order of its tests.
unfoldable pub option_kind : Grammar → Text → Kind
option_kind g token =
    if text_eq token (codes "--")
    then separator
    else if is_one_of token g.flags
    then flag
    else if is_one_of token g.valued
    then takes_value
    else if has_inline_value token g.valued
    then flag
    else if has_short_value token g.short_valued
    then flag
    else if starts_with (codes "-") token && not (text_eq token (codes "-"))
    then refused
    else operand

unfoldable pub kind : Grammar → Bool → Text → Kind
kind g true token = option_kind g token
kind g false token = operand

-- Where the loop stands: at a token, with `options`, or at the value of an option (`index += 2`).
pub data Place : Type 0 where
  reading : Bool → Place
  value : Place

abbrev pub add_operand : Text → Option (List Text) → Option (List Text)
add_operand t none = none
add_operand t (some ts) = some (t ∷ ts)

unfoldable pub options_and_operands_from : Grammar → Place → List Text → Option (List Text)
options_and_operands_from g (reading options) [] = some []
options_and_operands_from g value [] = none
options_and_operands_from g value (token ∷ rest) = options_and_operands_from g (reading true) rest
options_and_operands_from g (reading options) (token ∷ rest) = elim (kind g options token) [
  | separator ↦ options_and_operands_from g (reading false) rest
  | flag ↦ options_and_operands_from g (reading options) rest
  | takes_value ↦ options_and_operands_from g value rest
  | refused ↦ none
  | operand ↦ add_operand token (options_and_operands_from g (reading options) rest)
]

unfoldable pub options_and_operands : Grammar → List Text → Option (List Text)
options_and_operands g arguments = options_and_operands_from g (reading true) arguments
