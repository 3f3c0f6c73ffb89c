-- ===== src/Pending/Run.antt =====
-- To unfold `running` is to unfold all of the pending inputs, as a test wants.
use opencode_orchestrator.Pending.{
  same_value, same_items, has_fields, nonblank_string, session_id_of, raw_object, select_either,
  select_field, target_list, targets, source_of, agree_on, take_id, take_ids, source_ids,
  normalize_permission_request, permission_request_value, permission_properties, permission_event,
}
use opencode_orchestrator.Pending.Questions.{
  option_label, option_description, normalize_option, normalize_options, question_options,
  normalize_question, normalize_questions, question_list, normalize_question_request,
  question_properties, question_event,
}
use opencode_orchestrator.Permission.Run.{running as permission_running}

unfoldable pub running : Unit {0}
unfolding permission_running same_value same_items has_fields nonblank_string session_id_of
    raw_object select_either select_field target_list targets source_of agree_on take_id take_ids
    source_ids normalize_permission_request permission_request_value permission_properties
    permission_event option_label option_description normalize_option normalize_options
    question_options normalize_question normalize_questions question_list normalize_question_request
    question_properties question_event
running = tt
