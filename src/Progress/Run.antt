-- ===== src/Progress/Run.antt =====
-- To unfold `running` is to unfold all of the progress module, as a test wants.
use opencode_orchestrator.Value.{get}
use opencode_orchestrator.Stream.Messages.{is_falsy}
use opencode_orchestrator.Progress.{
  event_type_of, is_of_session, is_meaningful_type, is_meaningful_typed, is_meaningful_progress,
  message_info, is_completed, is_step_finish, has_step_finish, has_parts, turn_of, message_turn,
  finished_from, last_turn_finished, stamps_in, time_stamps, state_stamps, part_stamps,
  parts_stamps, list_stamps, message_timestamps, replaces, take_stamp, take_stamps, latest_from,
  latest_message_progress_at, idle_seconds,
}
use opencode_orchestrator.Progress.Tools.{
  nonblank_text, pending_status, tool_of, tool_timestamp, tool_in, tool_with, pending_tool,
  put_unique, tool_lt, insert_tool, sort_tools, collect_parts, collect_list, collect_message,
  collect_messages, pending_tools,
}
use opencode_orchestrator.Text.Run.{running as text_running}

unfoldable pub running : Unit {0}
unfolding text_running get is_falsy event_type_of is_of_session is_meaningful_type
    is_meaningful_typed is_meaningful_progress message_info is_completed is_step_finish
    has_step_finish has_parts turn_of message_turn finished_from last_turn_finished stamps_in
    time_stamps state_stamps part_stamps parts_stamps list_stamps message_timestamps replaces
    take_stamp take_stamps latest_from latest_message_progress_at idle_seconds nonblank_text
    pending_status tool_of tool_timestamp tool_in tool_with pending_tool put_unique tool_lt
    insert_tool sort_tools collect_parts collect_list collect_message collect_messages pending_tools
running = tt
