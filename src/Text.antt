-- ===== src/Text.antt =====
-- Python's `str` as a list of code points, with the operations of `str` that the program uses.
-- Two children model the standard library's `shlex.split` and `fnmatch.fnmatchcase`.
pub mod Shlex
pub mod Fnmatch
pub mod Laws
pub mod Search
pub mod Run
use Prim.Native.Char.{code}
use opencode_orchestrator.Prelude.{
  ℕ, suc, String, Bool, true, false, not, ◌&&◌, ◌||◌, List, [], ◌∷◌, ◌++◌, map, any, leb, ◌==◌,
  if◌then◌else◌, is_empty, Option, none, some,
}

abbrev pub Text : Type 0
Text = List ℕ

-- A literal of the source.
abbrev pub codes : String → Text
codes String.[] = []
codes (String.◌∷◌ c s) = code c ∷ codes s

abbrev pub texts : List String → List Text
texts [] = []
texts (s ∷ ss) = codes s ∷ texts ss

unfoldable pub text_eq : Text → Text → Bool
text_eq [] [] = true
text_eq (a ∷ s) (b ∷ t) = a == b && text_eq s t
text_eq _ _ = false

unfoldable pub is_one_of : Text → List Text → Bool
is_one_of s = any (text_eq s)

-- `s.startswith(prefix)`
unfoldable pub starts_with : Text → Text → Bool
starts_with [] s = true
starts_with (a ∷ p) [] = false
starts_with (a ∷ p) (b ∷ s) = a == b && starts_with p s

-- `part in s`
unfoldable pub is_in : Text → Text → Bool
is_in part [] = starts_with part []
is_in part (b ∷ s) = starts_with part (b ∷ s) || is_in part s

-- `str.isspace` of one character: the whole of Python's table.
unfoldable pub is_space : ℕ → Bool
is_space c =
    (leb 9 c && leb c 13)
    || (leb 28 c && leb c 32)
    || c == 133
    || c == 160
    || c == 5760
    || (leb 8192 c && leb c 8202)
    || c == 8232
    || c == 8233
    || c == 8239
    || c == 8287
    || c == 12288

unfoldable pub drop_spaces : Text → Text
drop_spaces [] = []
drop_spaces (c ∷ s) = let rest = drop_spaces s in if is_space c then rest else c ∷ s

-- the text up to its last character that is no space
unfoldable pub drop_last_spaces : Text → Text
drop_last_spaces [] = []
drop_last_spaces (c ∷ s) =
    let rest = drop_last_spaces s in if is_space c && is_empty rest then [] else c ∷ rest

-- `s.strip()`
unfoldable pub strip : Text → Text
strip s = drop_last_spaces (drop_spaces s)

-- `s and s.strip()`, as a test: some character is no space
unfoldable pub is_blank : Text → Bool
is_blank s = is_empty (strip s)

-- `s.split(separator)` for a separator of one character: never empty
abbrev pub cons_head : ℕ → List Text → List Text
cons_head c [] = (c ∷ []) ∷ []
cons_head c (part ∷ parts) = (c ∷ part) ∷ parts

unfoldable pub split : ℕ → Text → List Text
split sep [] = [] ∷ []
split sep (c ∷ s) = let rest = split sep s in if c == sep then [] ∷ rest else cons_head c rest

-- `separator.join(parts)`
unfoldable pub join : Text → List Text → Text
join sep [] = []
join sep (part ∷ []) = part
join sep (part ∷ next ∷ parts) = part ++ (sep ++ join sep (next ∷ parts))

abbrev pub slash : Text
slash = b'/' ∷ []

-- `s.replace(old, new)` for single characters
unfoldable pub replace : ℕ → ℕ → Text → Text
replace old new s = map (λ c. if c == old then new else c) s

unfoldable pub last_part : List Text → Text
last_part [] = []
last_part (x ∷ []) = x
last_part (x ∷ y ∷ l) = last_part (y ∷ l)

-- `s.rsplit(separator, 1)[-1]`: what follows the last separator
unfoldable pub after_last : ℕ → Text → Text
after_last sep s = last_part (split sep s)

-- `s.split(separator, 1)[1]`: what follows the first separator
unfoldable pub after_first : ℕ → Text → Text
after_first sep [] = []
after_first sep (c ∷ s) = let rest = after_first sep s in if c == sep then s else rest

-- the value of a key in a table
unfoldable pub look_up : Text → List (Text × Text) → Option Text
look_up key [] = none
look_up key ((k, v) ∷ table) = if text_eq k key then some v else look_up key table
