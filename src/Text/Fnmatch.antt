-- ===== src/Text/Fnmatch.antt =====
-- `fnmatch.fnmatchcase(name, pattern)` of the standard library: `*`, `?` and `[seq]`, matched
-- against the whole name, with no special treatment of `/`. A class is read item by item.
use opencode_orchestrator.Prelude.{
  ℕ, zero, suc, Bool, true, false, not, ◌&&◌, List, [], ◌∷◌, Option, none, some, any, leb, ◌==◌,
  if◌then◌else◌, length,
}
use opencode_orchestrator.Text.{Text}

pub record Interval : Type 0 where
  pub low : ℕ
  pub high : ℕ

-- `one_of negated intervals`
pub data Item : Type 0 where
  any_text any_char : Item
  lit : ℕ → Item
  one_of : Bool → List Interval → Item

abbrev pub from_to : ℕ → ℕ → Interval
from_to a b = record { low = a; high = b }

-- the items of a class: `a-z` where a character follows the dash, or single characters
unfoldable pub intervals : Text → List Interval
intervals [] = []
intervals (a ∷ []) = from_to a a ∷ []
intervals (a ∷ b ∷ []) = from_to a a ∷ from_to b b ∷ []
intervals (a ∷ b ∷ c ∷ s) =
    let range = from_to a c ∷ intervals s in
    let single = from_to a a ∷ intervals (b ∷ c ∷ s) in if b == b'-' then range else single

-- the text up to the next `]`, and what follows it
abbrev push_left : ℕ → Option (Text × Text) → Option (Text × Text)
push_left c none = none
push_left c (some (inside, rest)) = some (c ∷ inside, rest)

unfoldable pub to_bracket : Text → Option (Text × Text)
to_bracket [] = none
to_bracket (c ∷ s) = let rest = to_bracket s in if c == b']' then some ([], s) else push_left c rest

-- a `]` that stands first is a member
unfoldable pub class_end : Text → Option (Text × Text)
class_end [] = none
class_end (c ∷ s) = if c == b']' then push_left c (to_bracket s) else to_bracket (c ∷ s)

abbrev negate : Option (Text × Text) → Option (Bool × Text × Text)
negate none = none
negate (some (inside, rest)) = some (true, inside, rest)

abbrev plain : Option (Text × Text) → Option (Bool × Text × Text)
plain none = none
plain (some (inside, rest)) = some (false, inside, rest)

unfoldable pub class_of : Text → Option (Bool × Text × Text)
class_of [] = none
class_of (c ∷ s) = if c == b'!' then negate (class_end s) else plain (class_end (c ∷ s))

-- One item is read in each round, and an item is a character at least: the fuel is the length.
unfoldable pub compile : ℕ → Text → List Item
compile zero p = []
compile (suc n) [] = []
compile (suc n) (c ∷ p) =
    let rest = compile n p in
    let bracket : List Item = elim (class_of p) [
      | none ↦ lit c ∷ rest
      | some (negated, inside, after) ↦ one_of negated (intervals inside) ∷ compile n after
    ] in
    if c == b'*'
    then any_text ∷ rest
    else if c == b'?'
    then any_char ∷ rest
    else if c == b'['
    then bracket
    else lit c ∷ rest

unfoldable pub in_interval : ℕ → Interval → Bool
in_interval c i = leb i.low c && leb c i.high

unfoldable pub one_matches : Item → ℕ → Bool
one_matches any_text c = false
one_matches any_char c = true
one_matches (lit d) c = c == d
one_matches (one_of negated l) c =
    if negated then not (any (in_interval c) l) else any (in_interval c) l

-- `matches_after k name`: some rest of the name satisfies `k`
unfoldable pub matches_after : (Text → Bool) → Text → Bool
matches_after k [] = k []
matches_after k (c ∷ s) = elim (k (c ∷ s)) [ true ↦ true | false ↦ matches_after k s ]

unfoldable pub matches : List Item → Text → Bool
matches [] [] = true
matches [] (_ ∷ _) = false
matches (any_text ∷ p) s = matches_after (matches p) s
matches (i ∷ p) [] = false
matches (i ∷ p) (c ∷ s) = elim (one_matches i c) [ true ↦ matches p s | false ↦ false ]

unfoldable pub fnmatchcase : Text → Text → Bool
fnmatchcase name pattern = matches (compile (length pattern) pattern) name
