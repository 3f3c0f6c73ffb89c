-- ===== src/Tool/Run.antt =====
-- To unfold `running` is to unfold all of the tool service, as a test wants.
use opencode_orchestrator.Tool.{
  as_object, check_keys, get_or, nonblank, all_strings, any_blank, string_list, boolean, integer,
  is_id_char, matches_task_id, task_id_of, timeout,
}
use opencode_orchestrator.Tool.Contract.{
  model_of, risk_of, task_contract_of, review_evidence_of, dashed, drop_dashes, drop_last_dashes,
  take, slug_of,
}
use opencode_orchestrator.Tool.Reply.{
  check_text, check_continue, check_review, response_of, check_approval, check_always,
  check_remembered, check_remember, check_permission, all_answers, are_answers, check_question,
  check_reply, validate_reply_payload,
}
use opencode_orchestrator.Tool.Call.{
  with_model, complete_contract, delegate_of, reply_of, resume_of, status_of, is_decimal, cursor_of,
  transcript_of, evidence_of, collect_of, cancel_wait_of, abort_of, command_of, call,
}
use opencode_orchestrator.Tool.Outcome.{
  state_outcome, summary, next_action, opencode_session_id, common,
}
use opencode_orchestrator.Permission.Run.{running as permission_running}

unfoldable pub running : Unit {0}
unfolding permission_running as_object check_keys get_or nonblank all_strings any_blank string_list
    boolean integer is_id_char matches_task_id task_id_of timeout model_of risk_of task_contract_of
    review_evidence_of dashed drop_dashes drop_last_dashes take slug_of check_text check_continue
    check_review response_of check_approval check_always check_remembered check_remember
    check_permission all_answers are_answers check_question check_reply validate_reply_payload
    with_model complete_contract delegate_of reply_of resume_of status_of is_decimal cursor_of
    transcript_of evidence_of collect_of cancel_wait_of abort_of command_of call state_outcome
    summary next_action opencode_session_id common
running = tt
