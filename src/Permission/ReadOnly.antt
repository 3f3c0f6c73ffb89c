-- ===== src/Permission/ReadOnly.antt =====
-- `_safe_git_read` and `_bash_is_safe_read_only` of permission_policy.py, with their tables.
use opencode_orchestrator.Prelude.{
  Bool, false, not, ◌&&◌, List, [], ◌∷◌, Option, none, some, all, is_empty, if◌then◌else◌,
}
use opencode_orchestrator.Text.{Text, codes, texts, text_eq, is_one_of, is_in}
use opencode_orchestrator.Text.Shlex.{shlex_split}
use opencode_orchestrator.Permission.Options.{Grammar, options_and_operands, relative_bash_operand}

abbrev git_status_grammar : Grammar
git_status_grammar = record {
  flags = texts (
      "-s" ∷ "--short" ∷ "-b" ∷ "--branch" ∷ "--porcelain" ∷ "--ignored" ∷ "--no-renames"
      ∷ "--renames" ∷ "--ahead-behind" ∷ "--no-ahead-behind" ∷ "--show-stash" ∷ "--no-show-stash"
      ∷ []);
  valued = texts ("-u" ∷ "--untracked-files" ∷ "--porcelain" ∷ []);
  short_valued = [];
}

abbrev git_diff_grammar : Grammar
git_diff_grammar = record {
  flags = texts (
      "--cached" ∷ "--staged" ∷ "--stat" ∷ "--numstat" ∷ "--shortstat" ∷ "--name-only"
      ∷ "--name-status" ∷ "--check" ∷ "--summary" ∷ "-p" ∷ "--patch" ∷ "--no-patch" ∷ "--raw"
      ∷ "--no-ext-diff" ∷ "--no-textconv" ∷ "--color" ∷ "--no-color" ∷ []);
  valued = texts ("-U" ∷ "--unified" ∷ "--diff-filter" ∷ []);
  short_valued = texts ("-U" ∷ []);
}

abbrev git_log_grammar : Grammar
git_log_grammar = record {
  flags = texts (
      "--oneline" ∷ "--decorate" ∷ "--no-decorate" ∷ "--stat" ∷ "--shortstat" ∷ "--name-only"
      ∷ "--name-status" ∷ "--all" ∷ "--graph" ∷ []);
  valued = texts ("-n" ∷ "--max-count" ∷ "--format" ∷ "--pretty" ∷ []);
  short_valued = texts ("-n" ∷ []);
}

abbrev git_show_grammar : Grammar
git_show_grammar = record {
  flags = texts (
      "--oneline" ∷ "--stat" ∷ "--shortstat" ∷ "--name-only" ∷ "--name-status" ∷ "--summary"
      ∷ "--no-patch" ∷ "-p" ∷ "--patch" ∷ []);
  valued = texts ("--format" ∷ "--pretty" ∷ []);
  short_valued = [];
}

abbrev git_rev_parse_grammar : Grammar
git_rev_parse_grammar = record {
  flags = texts (
      "--git-dir" ∷ "--git-common-dir" ∷ "--show-toplevel" ∷ "--show-prefix"
      ∷ "--is-inside-work-tree" ∷ "--is-bare-repository" ∷ "--show-current" ∷ "--verify"
      ∷ "--abbrev-ref" ∷ []);
  valued = texts ("--short" ∷ []);
  short_valued = [];
}

abbrev git_branch_grammar : Grammar
git_branch_grammar = record {
  flags = texts ("--show-current" ∷ "--list" ∷ "--merged" ∷ "--no-merged" ∷ []);
  valued = texts ("--contains" ∷ "--no-contains" ∷ "--format" ∷ []);
  short_valued = [];
}

abbrev git_ls_files_grammar : Grammar
git_ls_files_grammar = record {
  flags = texts (
      "--cached" ∷ "--deleted" ∷ "--modified" ∷ "--others" ∷ "--ignored" ∷ "--stage" ∷ "--unmerged"
      ∷ "--error-unmatch" ∷ []);
  valued = texts ("--exclude" ∷ "--exclude-from" ∷ "--exclude-standard" ∷ []);
  short_valued = [];
}

abbrev pub git_grammars : List (Text × Grammar)
git_grammars =
    (codes "status", git_status_grammar)
    ∷ (codes "diff", git_diff_grammar)
    ∷ (codes "log", git_log_grammar)
    ∷ (codes "show", git_show_grammar)
    ∷ (codes "rev-parse", git_rev_parse_grammar)
    ∷ (codes "branch", git_branch_grammar)
    ∷ (codes "ls-files", git_ls_files_grammar)
    ∷ []

abbrev ls_grammar : Grammar
ls_grammar = record {
  flags = texts ("-a" ∷ "-A" ∷ "-l" ∷ "-h" ∷ "-H" ∷ "-d" ∷ "-F" ∷ "-1" ∷ []);
  valued = [];
  short_valued = [];
}

abbrev pub rg_grammar : Grammar
rg_grammar = record {
  flags = texts (
      "-n" ∷ "--line-number" ∷ "-i" ∷ "--ignore-case" ∷ "-F" ∷ "--fixed-strings" ∷ "--files"
      ∷ "--hidden" ∷ "--no-ignore" ∷ "--json" ∷ "--count" ∷ "--count-matches" ∷ "--stats" ∷ []);
  valued = texts ("-e" ∷ "--regexp" ∷ "-g" ∷ "--glob" ∷ "-t" ∷ "--type" ∷ []);
  short_valued = texts ("-e" ∷ "-g" ∷ "-t" ∷ []);
}

abbrev head_grammar : Grammar
head_grammar = record {
  flags = [];
  valued = texts ("-n" ∷ "--lines" ∷ "-c" ∷ "--bytes" ∷ []);
  short_valued = texts ("-n" ∷ "-c" ∷ []);
}

abbrev tail_grammar : Grammar
tail_grammar = record {
  flags = [];
  valued = texts ("-n" ∷ "--lines" ∷ "-c" ∷ "--bytes" ∷ []);
  short_valued = texts ("-n" ∷ "-c" ∷ []);
}

abbrev wc_grammar : Grammar
wc_grammar = record {
  flags =
      texts ("-c" ∷ "-l" ∷ "-m" ∷ "-w" ∷ "-L" ∷ "--bytes" ∷ "--lines" ∷ "--chars" ∷ "--words" ∷ []);
  valued = [];
  short_valued = [];
}

abbrev pub read_grammars : List (Text × Grammar)
read_grammars =
    (codes "ls", ls_grammar)
    ∷ (codes "rg", rg_grammar)
    ∷ (codes "head", head_grammar)
    ∷ (codes "tail", tail_grammar)
    ∷ (codes "wc", wc_grammar)
    ∷ []

-- `grammars.get(name)`
unfoldable pub grammar_of : Text → List (Text × Grammar) → Option Grammar
grammar_of name [] = none
grammar_of name ((n, g) ∷ rest) = if text_eq name n then some g else grammar_of name rest

unfoldable pub all_relative : Option (List Text) → Bool
all_relative none = false
all_relative (some operands) = all relative_bash_operand operands

unfoldable pub some_relative : Option (List Text) → Bool
some_relative none = false
some_relative (some operands) = not (is_empty operands) && all relative_bash_operand operands

unfoldable pub safe_git_read : List Text → Bool
safe_git_read [] = false
safe_git_read (name ∷ []) = false
safe_git_read (name ∷ subcommand ∷ arguments) =
    if not (text_eq name (codes "git")) then false else elim (grammar_of subcommand git_grammars) [
      | none ↦ false
      | some g ↦ all_relative (options_and_operands g arguments)
    ]

unfoldable pub safe_reader : Text → List Text → Bool
safe_reader name arguments = elim (grammar_of name read_grammars) [
  | none ↦ false
  | some g ↦ some_relative (options_and_operands g arguments)
]

abbrev pwd_flags : List Text
pwd_flags = texts ("-L" ∷ "-P" ∷ "--logical" ∷ "--physical" ∷ [])

unfoldable pub read_only_words : Option (List Text) → Bool
read_only_words none = false
read_only_words (some []) = false
read_only_words (some (name ∷ arguments)) =
    if is_in (codes "/") name
    then false
    else if text_eq name (codes "git")
    then safe_git_read (name ∷ arguments)
    else if text_eq name (codes "pwd")
    then all (λ t. is_one_of t pwd_flags) arguments
    else safe_reader name arguments

unfoldable pub bash_is_safe_read_only : Text → Bool
bash_is_safe_read_only command = read_only_words (shlex_split command)
