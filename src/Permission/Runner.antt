-- ===== src/Permission/Runner.antt =====
-- The test runners of permission_policy.py: `_safe_pytest_arguments`, `_safe_unittest_arguments`,
-- `_safe_unittest_discover_arguments` and `_bash_is_exact_contract_test`.
use opencode_orchestrator.Prelude.{
  Bool, true, false, not, ◌&&◌, ◌||◌, List, [], ◌∷◌, ◌++◌, Option, none, some, all, any,
  if◌then◌else◌,
}
use opencode_orchestrator.Text.{
  Text, codes, texts, text_eq, is_one_of, is_in, starts_with, after_first,
}
use opencode_orchestrator.Text.Shlex.{shlex_split}
use opencode_orchestrator.Value.{Value, str, arr, obj, Items, nil, cons, get}
use opencode_orchestrator.Permission.Options.{Grammar, options_and_operands, relative_bash_operand}

unfoldable pub safe_relative_test_selector : Text → Bool
safe_relative_test_selector value = not (text_eq value (codes "-")) && relative_bash_operand value

abbrev pytest_grammar : Grammar
pytest_grammar = record {
  flags = texts (
      "-q" ∷ "--quiet" ∷ "-v" ∷ "--verbose" ∷ "-x" ∷ "--exitfirst" ∷ "--collect-only" ∷ "--co"
      ∷ []);
  valued = [];
  short_valued = [];
}

abbrev unittest_flags : List Text
unittest_flags = texts (
    "-v" ∷ "--verbose" ∷ "-q" ∷ "--quiet" ∷ "-f" ∷ "--failfast" ∷ "-c" ∷ "--catch" ∷ "-b"
    ∷ "--buffer" ∷ [])

abbrev unittest_grammar : Grammar
unittest_grammar = record { flags = unittest_flags; valued = []; short_valued = [] }

unfoldable pub all_selectors : Option (List Text) → Bool
all_selectors none = false
all_selectors (some operands) = all safe_relative_test_selector operands

unfoldable pub safe_pytest_arguments : List Text → Bool
safe_pytest_arguments arguments =
    if any (starts_with (codes "@")) arguments
    then false
    else all_selectors (options_and_operands pytest_grammar arguments)

abbrev relative_valued : List Text
relative_valued = texts ("-s" ∷ "--start-directory" ∷ "-t" ∷ "--top-level-directory" ∷ [])

unfoldable pub inline_directory : Text → Bool
inline_directory token =
    any (λ o. starts_with (codes "--") o && starts_with (o ++ codes "=") token) relative_valued

-- The loop over `arguments`; the flag says that the argument at hand is an option's directory.
unfoldable pub discover_from : Bool → List Text → Bool
discover_from false [] = true
discover_from true [] = false
discover_from true (directory ∷ rest) = elim (safe_relative_test_selector directory) [
  | true ↦ discover_from false rest
  | false ↦ false
]
discover_from false (token ∷ rest) = elim (is_one_of token unittest_flags) [
  | true ↦ discover_from false rest
  | false ↦ elim (is_one_of token relative_valued) [
    | true ↦ discover_from true rest
    | false ↦
        elim (inline_directory token && safe_relative_test_selector (after_first b'=' token)) [
          | true ↦ discover_from false rest
          | false ↦ false
        ]
  ]
]

unfoldable pub safe_unittest_discover_arguments : List Text → Bool
safe_unittest_discover_arguments arguments = discover_from false arguments

unfoldable pub safe_unittest_arguments : List Text → Bool
safe_unittest_arguments [] = all_selectors (options_and_operands unittest_grammar [])
safe_unittest_arguments (first ∷ rest) =
    if text_eq first (codes "discover")
    then safe_unittest_discover_arguments rest
    else all_selectors (options_and_operands unittest_grammar (first ∷ rest))

-- `python -m <runner> ...`
unfoldable pub safe_python_arguments : List Text → Bool
safe_python_arguments (option ∷ runner ∷ arguments) =
    if not (text_eq option (codes "-m"))
    then false
    else if text_eq runner (codes "pytest")
    then safe_pytest_arguments arguments
    else if text_eq runner (codes "unittest")
    then safe_unittest_arguments arguments
    else false
safe_python_arguments _ = false

unfoldable pub runner_words : Option (List Text) → Bool
runner_words none = false
runner_words (some []) = false
runner_words (some (executable ∷ arguments)) =
    if is_in (codes "/") executable
    then false
    else if is_one_of executable (texts ("python" ∷ "python3" ∷ []))
    then safe_python_arguments arguments
    else if is_one_of executable (texts ("pytest" ∷ "py.test" ∷ []))
    then safe_pytest_arguments arguments
    else false

-- `any(isinstance(item, str) and item == command for item in tests)`
unfoldable pub lists_text : Text → Items → Bool
lists_text command nil = false
lists_text command (cons (str s) vs) = text_eq s command || lists_text command vs
lists_text command (cons _ vs) = lists_text command vs

unfoldable pub is_contract_command : Text → Option Value → Bool
is_contract_command command (some (arr tests)) = lists_text command tests
is_contract_command command _ = false

unfoldable pub contract_lists : Text → Value → Bool
contract_lists command (obj contract) =
    is_contract_command command (get (codes "test_commands") contract)
contract_lists command _ = false

unfoldable pub bash_is_exact_contract_test : Text → Value → Bool
bash_is_exact_contract_test command task_contract =
    if not (contract_lists command task_contract) then false else runner_words (shlex_split command)
