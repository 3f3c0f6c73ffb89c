-- ===== src/Mcp/Run.antt =====
-- To unfold `running` is to unfold all of the protocol server, as a test wants.
use opencode_orchestrator.Value.{get}
use opencode_orchestrator.Mcp.{
  code, new_server, same_key, is_hashable, has_key, drop_key, write, reply_error, reply, submit,
  with_arguments, with_name, schedule_tool, cancel_reason, cancel_id, cancel_request, initialize,
  notify_initialized, call_tool, dispatch, speaks_jsonrpc, handle_method, handle, outcome_reply,
  complete, shutdown,
}
use opencode_orchestrator.Mcp.Events.{handle_event, handle_events}
use opencode_orchestrator.Text.Run.{running as text_running}

unfoldable pub running : Unit {0}
unfolding text_running get code new_server same_key is_hashable has_key drop_key write reply_error
    reply submit with_arguments with_name schedule_tool cancel_reason cancel_id cancel_request
    initialize notify_initialized call_tool dispatch speaks_jsonrpc handle_method handle
    outcome_reply complete shutdown handle_event handle_events
running = tt
