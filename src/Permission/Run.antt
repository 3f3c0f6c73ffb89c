-- ===== src/Permission/Run.antt =====
-- To unfold `running` is to unfold all of the permission policy, as a test wants.
use opencode_orchestrator.Value.{get, put}
use opencode_orchestrator.Permission.Paths.{
  resolve_part, resolve, absolute_path, normalize_external_pattern, relative_path,
  normalize_relative_path,
}
use opencode_orchestrator.Permission.Policy.{
  object, only_keys, action_of, parse_action, persistence_of, default_field, persistence_field,
  basis_field, basis_present, rules_field, text_field, action_field, has_rule_keys, rule_pattern_of,
  normalize_rule, normalize_rules, normalize_permission_policy, policy_value,
}
use opencode_orchestrator.Permission.Progress.{seconds_field, normalize_progress_policy}
use opencode_orchestrator.Permission.Edit.{
  worktree_root, root_prefix, strip_root, absolute_target, nonempty, relative_target,
  relative_targets, edit_relative_targets, absolute_pattern, allowed_pattern, allowed_patterns,
  within, patterns_of, edit_targets_allowed,
}
use opencode_orchestrator.Permission.Options.{
  has_words, bash_is_indeterminate, relative_bash_operand, has_inline_value, has_short_value,
  option_kind, kind, options_and_operands_from, options_and_operands,
}
use opencode_orchestrator.Permission.ReadOnly.{
  grammar_of, all_relative, some_relative, safe_git_read, safe_reader, read_only_words,
  bash_is_safe_read_only,
}
use opencode_orchestrator.Permission.Runner.{
  safe_relative_test_selector, all_selectors, safe_pytest_arguments, inline_directory,
  discover_from, safe_unittest_discover_arguments, safe_unittest_arguments, safe_python_arguments,
  runner_words, lists_text, is_contract_command, contract_lists, bash_is_exact_contract_test,
}
use opencode_orchestrator.Permission.Risk.{
  any_of, starts_with_any, contains_any, curl_short_option, write_request, write_request_pair,
  http_client_risk, curl_risk, git_risk, deploy_risk, database_risk, words_high_risk,
  tokens_high_risk, bash_high_risk, padded, lowered, has_high_risk_action,
}
use opencode_orchestrator.Permission.Decide.{
  permission_of, target_texts, targets_of, normalize_targets, normalize_request_targets, iterate,
  get_or_empty, allowed_paths, rule_matches, last_match, same_texts, rule_target_variants,
  matched_rule, allow_response, external_decision, ordinary_decision, decide, bash_supported,
  edit_scope,
}
use opencode_orchestrator.Permission.Evaluate.{
  forbidden_texts, forbidden_actions, decide_targets, decide_permitted, decide_scope,
  decide_normalized, evaluate_targets, evaluate_request, evaluate_permission,
}
use opencode_orchestrator.Text.Run.{running as text_running}

unfoldable pub running : Unit {0}
unfolding text_running get put resolve_part resolve absolute_path normalize_external_pattern
    relative_path normalize_relative_path object only_keys action_of parse_action persistence_of
    default_field persistence_field basis_field basis_present rules_field text_field action_field
    has_rule_keys rule_pattern_of normalize_rule normalize_rules normalize_permission_policy
    policy_value seconds_field normalize_progress_policy worktree_root root_prefix strip_root
    absolute_target nonempty relative_target relative_targets edit_relative_targets absolute_pattern
    allowed_pattern allowed_patterns within patterns_of edit_targets_allowed has_words
    bash_is_indeterminate relative_bash_operand has_inline_value has_short_value option_kind kind
    options_and_operands_from options_and_operands grammar_of all_relative some_relative
    safe_git_read safe_reader read_only_words bash_is_safe_read_only safe_relative_test_selector
    all_selectors safe_pytest_arguments inline_directory discover_from
    safe_unittest_discover_arguments safe_unittest_arguments safe_python_arguments runner_words
    lists_text is_contract_command contract_lists bash_is_exact_contract_test any_of starts_with_any
    contains_any curl_short_option write_request write_request_pair http_client_risk curl_risk
    git_risk deploy_risk database_risk words_high_risk tokens_high_risk bash_high_risk padded
    lowered has_high_risk_action permission_of target_texts targets_of normalize_targets
    normalize_request_targets iterate get_or_empty allowed_paths rule_matches last_match same_texts
    rule_target_variants matched_rule allow_response external_decision ordinary_decision decide
    bash_supported edit_scope forbidden_texts forbidden_actions decide_permitted decide_targets
    decide_scope decide_normalized evaluate_targets evaluate_request evaluate_permission
running = tt
