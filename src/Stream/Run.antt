-- ===== src/Stream/Run.antt =====
-- To unfold `running` is to unfold all of the event stream, as a test wants.
use opencode_orchestrator.Value.{get, put}
use opencode_orchestrator.Stream.{
  strip_newlines, partition, field_value, no_event, take_field, read_line, yield_event, build,
  parse_from, parse_sse_lines,
}
use opencode_orchestrator.Stream.Sanitize.{
  kind_of, type_text, safe_string, is_token_char, is_path_char, safe_error_token, safe_error_path,
  all_text, safe_string_list, option_with, safe_option, safe_options, question_with, safe_question,
  safe_questions_of, safe_questions, properties_of, visible_error, visible_ids, visible_body,
  visible_properties, sanitized_event, has_text, logged_properties, logged_event, sanitize_known,
  sanitize_typed, sanitize_event_for_log,
}
use opencode_orchestrator.Stream.Messages.{
  is_falsy, tool_name, tool_status, status_message, tool_message, part_message, updated_message,
  late_message, typed_message, progress_message,
}
use opencode_orchestrator.Stream.Session.{
  count, cancelled_outcome, empty_outcome, event_session_id, is_own, relevant_kind, shown_type,
  end_round, conclude, observe, log_round, report_round, event_round, payload_round, round, ended,
  wait_rounds, wait_for_session,
}
use opencode_orchestrator.Cancellation.{new_token}
use opencode_orchestrator.Text.Run.{running as text_running}

unfoldable pub running : Unit {0}
unfolding text_running get put strip_newlines partition field_value no_event take_field read_line
    yield_event build parse_from parse_sse_lines kind_of type_text safe_string is_token_char
    is_path_char safe_error_token safe_error_path all_text safe_string_list option_with safe_option
    safe_options question_with safe_question safe_questions_of safe_questions properties_of
    visible_error visible_ids visible_body visible_properties sanitized_event has_text
    logged_properties logged_event sanitize_known sanitize_typed sanitize_event_for_log is_falsy
    tool_name tool_status status_message tool_message part_message updated_message late_message
    typed_message progress_message count cancelled_outcome empty_outcome event_session_id is_own
    relevant_kind shown_type end_round conclude observe log_round report_round event_round
    payload_round round ended wait_rounds wait_for_session new_token
running = tt
