-- ===== src/Permission/Plain.antt =====
-- The bash commands that permission_policy.py lets pass are plain: what `_bash_is_indeterminate`,
-- `_bash_is_exact_contract_test` and `_bash_is_safe_read_only` have in common.
use opencode_orchestrator.Prelude.{
  ℕ, ◌≡◌, refl, Bool, true, false, List, [], ◌∷◌, Option, none, some, arith, All, any, any-false,
  inl, inr, ||-true,
}
use opencode_orchestrator.Text.{Text, codes, texts, is_one_of, is_in}
use opencode_orchestrator.Text.Laws.{Lacks}
use opencode_orchestrator.Text.Search.{is_in-Lacks}
use opencode_orchestrator.Text.Shlex.{shlex_split}
use opencode_orchestrator.Value.{Value}
use opencode_orchestrator.Permission.Options.{shell_markers, bash_is_indeterminate}
use opencode_orchestrator.Permission.ReadOnly.{
  grammar_of, safe_reader, read_only_words, bash_is_safe_read_only,
}
use opencode_orchestrator.Permission.Runner.{runner_words, bash_is_exact_contract_test}
use opencode_orchestrator.Permission.Decide.{bash_supported}

-- the markers that are one character
abbrev pub single_characters : List Text → List ℕ
single_characters [] = []
single_characters ([] ∷ ms) = single_characters ms
single_characters ((c ∷ []) ∷ ms) = c ∷ single_characters ms
single_characters ((c ∷ d ∷ s) ∷ ms) = single_characters ms

-- `;`, `|`, `>`, `<`, `&`, the line ends, `$`, `*`, `?`, the backquote, brackets, braces and `~`
abbrev pub shell_characters : List ℕ
shell_characters = single_characters shell_markers

abbrev pub safe_executables : List Text
safe_executables = texts (
    "git" ∷ "pwd" ∷ "ls" ∷ "rg" ∷ "head" ∷ "tail" ∷ "wc" ∷ "python" ∷ "python3" ∷ "pytest"
    ∷ "py.test" ∷ [])

pub record IsPlainCommand (command : Text) : Type 0 where
  pub no_shell_syntax : All (λ c. Lacks c command) shell_characters
  pub executable : Text
  pub arguments : List Text
  pub words : shlex_split command ≡ some (executable ∷ arguments)
  pub no_path : is_in (codes "/") executable ≡ false
  pub is_known : is_one_of executable safe_executables ≡ true

single_characters-Lacks :
    (s : Text) (ms : List Text)
    → All (λ m. is_in m s ≡ false) ms
    → All (λ c. Lacks c s) (single_characters ms)
single_characters-Lacks s [] h = tt
single_characters-Lacks s ([] ∷ ms) h = single_characters-Lacks s ms h.1
single_characters-Lacks s ((c ∷ []) ∷ ms) h =
    (is_in-Lacks c s h.0, single_characters-Lacks s ms h.1)
single_characters-Lacks s ((c ∷ d ∷ t) ∷ ms) h = single_characters-Lacks s ms h.1

determinate-Lacks :
    (command : Text)
    → bash_is_indeterminate command ≡ false
    → All (λ c. Lacks c command) shell_characters
unfolding bash_is_indeterminate
determinate-Lacks command h =
    single_characters-Lacks command shell_markers
      (any-false (λ m. is_in m command) shell_markers (ground arith))

read_only_executable :
    (name : Text) (arguments : List Text)
    → read_only_words (some (name ∷ arguments)) ≡ true
    → (is_in (codes "/") name ≡ false) × (is_one_of name safe_executables ≡ true)
unfolding read_only_words safe_reader grammar_of is_one_of any
read_only_executable name arguments h = (ground arith, ground arith)

runner_executable :
    (name : Text) (arguments : List Text)
    → runner_words (some (name ∷ arguments)) ≡ true
    → (is_in (codes "/") name ≡ false) × (is_one_of name safe_executables ≡ true)
unfolding runner_words is_one_of any
runner_executable name arguments h = (ground arith, ground arith)

-- the words of a command that a word test accepts, and their first
abbrev Named : (Option (List Text) → Bool) → Type 0
Named accepts =
    (name : Text) (arguments : List Text)
    → accepts (some (name ∷ arguments)) ≡ true
    → (is_in (codes "/") name ≡ false) × (is_one_of name safe_executables ≡ true)

plain_of_words :
    (accepts : Option (List Text) → Bool)
    → accepts none ≡ false
    → accepts (some []) ≡ false
    → Named accepts
    → (command : Text) → accepts (shlex_split command) ≡ true
    → All (λ c. Lacks c command) shell_characters
    → IsPlainCommand command
plain_of_words accepts refuses_none refuses_empty named command h clean =
    go (shlex_split command) refl h
  where
    go :
        (o : Option (List Text))
        → shlex_split command ≡ o
        → accepts o ≡ true
        → IsPlainCommand command
    go none q k = cc
    go (some []) q k = cc
    go (some (name ∷ arguments)) q k = record {
      no_shell_syntax = clean;
      executable = name;
      arguments = arguments;
      words = q;
      no_path = (named name arguments k).0;
      is_known = (named name arguments k).1;
    }

contract_test_words :
    (command : Text) (contract : Value)
    → bash_is_exact_contract_test command contract ≡ true
    → runner_words (shlex_split command) ≡ true
unfolding bash_is_exact_contract_test
contract_test_words command contract h = ground arith

runner_refusals : (runner_words none ≡ false) × (runner_words (some []) ≡ false)
unfolding runner_words
runner_refusals = (refl, refl)

read_only_refusals : (read_only_words none ≡ false) × (read_only_words (some []) ≡ false)
unfolding read_only_words
read_only_refusals = (refl, refl)

-- A bash command that is determinate and supported is plain.
pub bash_is_plain :
    (contract : Value) (command : Text)
    → bash_is_indeterminate command ≡ false
    → bash_supported command contract ≡ true
    → IsPlainCommand command
unfolding bash_supported bash_is_safe_read_only
bash_is_plain contract command d h =
    elim (||-true (bash_is_exact_contract_test command contract) (bash_is_safe_read_only command)
      h) [
        | inl test ↦
            plain_of_words runner_words runner_refusals.0 runner_refusals.1 runner_executable
              command (contract_test_words command contract test) (determinate-Lacks command d)
        | inr safe ↦
            plain_of_words read_only_words read_only_refusals.0 read_only_refusals.1
              read_only_executable command safe (determinate-Lacks command d)
      ]
