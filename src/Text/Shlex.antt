-- ===== src/Text/Shlex.antt =====
-- `shlex.split(command)` of the standard library: POSIX rules, no comments, words split at
-- whitespace only. `none` is its `ValueError` (no closing quotation, no escaped character).
use opencode_orchestrator.Prelude.{
  ℕ, Bool, true, false, not, ◌&&◌, ◌||◌, List, [], ◌∷◌, ◌++◌, Option, none, some, ◌==◌, is_empty,
  if◌then◌else◌,
}
use opencode_orchestrator.Text.{Text}

-- The lexer's `state`: `' '`, `'a'`, a quote, or the escape with the state to return to.
pub data Mode : Type 0 where
  outside word : Mode
  quote : ℕ → Mode
  escape : Mode → Mode

pub record Lexer : Type 0 where
  pub mode : Mode
  pub token : Text
  pub quoted : Bool
  pub words : List Text

unfoldable pub is_whitespace : ℕ → Bool
is_whitespace c = c == b' ' || c == 9 || c == 13 || c == 10

unfoldable pub is_quote : ℕ → Bool
is_quote c = c == 39 || c == 34

abbrev pub backslash : ℕ
backslash = 92

-- the end of a token: one that is empty and was not quoted is no word
unfoldable pub emit : Lexer → Lexer
emit l =
    if not (is_empty l.token) || l.quoted
    then record { mode = outside; token = []; quoted = false; words = l.words ++ (l.token ∷ []) }
    else record { mode = outside; token = []; quoted = false; words = l.words }

unfoldable pub add_char : ℕ → Lexer → Lexer
add_char c l = record l { token = l.token ++ (c ∷ []) }

unfoldable pub enter : Mode → Lexer → Lexer
enter m l = record l { mode = m }

-- In a quote that was escaped from, the backslash stays unless it escapes the quote or itself.
unfoldable pub after_escape : Mode → ℕ → Lexer → Lexer
after_escape (quote q) c l =
    enter (quote q) (add_char c (if c == backslash || c == q then l else add_char backslash l))
after_escape m c l = enter m (add_char c l)

unfoldable pub read_char : Mode → ℕ → Lexer → Lexer
read_char outside c l =
    if is_whitespace c
    then emit l
    else if c == backslash
    then enter (escape word) l
    else if is_quote c
    then enter (quote c) l
    else enter word (add_char c l)
read_char word c l =
    if is_whitespace c
    then emit l
    else if is_quote c
    then enter (quote c) l
    else if c == backslash
    then enter (escape word) l
    else add_char c l
read_char (quote q) c l =
    let l' = record l { quoted = true } in
    if c == q
    then enter word l'
    else if c == backslash && q == 34
    then enter (escape (quote q)) l'
    else add_char c l'
read_char (escape m) c l = after_escape m c l

unfoldable pub finish : Mode → Lexer → Option (List Text)
finish outside l = some ((emit l).words)
finish word l = some ((emit l).words)
finish (quote q) l = none
finish (escape m) l = none

unfoldable pub read : Text → Lexer → Option (List Text)
read [] l = finish l.mode l
read (c ∷ s) l = read s (read_char l.mode c l)

unfoldable pub shlex_split : Text → Option (List Text)
shlex_split s = read s (record { mode = outside; token = []; quoted = false; words = [] })
