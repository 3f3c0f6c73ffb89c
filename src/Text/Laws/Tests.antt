-- ===== src/Text/Laws/Tests.antt =====
-- Runs of the text operations on small inputs.
use opencode_orchestrator.Prelude.{◌≡◌, refl, true, false, [], ◌∷◌, none, some}
use opencode_orchestrator.Text.{codes, texts, strip, split}
use opencode_orchestrator.Text.Run.{running}
use opencode_orchestrator.Text.Shlex.{shlex_split}
use opencode_orchestrator.Text.Fnmatch.{fnmatchcase}

split_words :
    shlex_split (codes "git  log 'a b' \"c\\\"d\" e\\ f ''")
    ≡ some (texts ("git" ∷ "log" ∷ "a b" ∷ "c\"d" ∷ "e f" ∷ "" ∷ []))
unfolding running
split_words = refl

open_quote : shlex_split (codes "echo 'a") ≡ none
unfolding running
open_quote = refl

glob_star : fnmatchcase (codes "src/a/b.py") (codes "src/*.p[a-z]") ≡ true
unfolding running
glob_star = refl

glob_not : fnmatchcase (codes "a]c") (codes "?[!]b]c") ≡ false
unfolding running
glob_not = refl

strip_both : strip (codes " a b ") ≡ codes "a b"
unfolding running
strip_both = refl

split_path : split b'/' (codes "/a//b") ≡ texts ("" ∷ "a" ∷ "" ∷ "b" ∷ [])
unfolding running
split_path = refl
