-- ===== src/Lib.antt =====
-- Verification library of opencode-orchestrator: an MCP server that hands coding tasks to OpenCode and
-- answers, by policy, what OpenCode asks permission for.
--
-- The parts, with the files of the repository that they model, and how they interact:
--
-- - Permission (src/opencode_orchestrator/permission_policy.py). `evaluate_permission` takes the
--   task's policy, a request of OpenCode and the task's contract, and returns a decision. The children
--   follow the file: Paths (`_normalize_external_pattern`, `_normalize_relative_path`), Policy
--   (`normalize_permission_policy`), Progress (`normalize_progress_policy`), Edit
--   (`_edit_relative_targets`, `_edit_targets_allowed`), Options (`_bash_is_indeterminate`,
--   `_relative_bash_operand`, `_options_and_operands`), ReadOnly (`_safe_git_read`,
--   `_bash_is_safe_read_only`), Runner (the test commands of the contract), Risk (`_bash_high_risk`,
--   `_has_high_risk_action`), Decide (the rules) and Evaluate (`evaluate_permission`, with its gates
--   in the order of the source).
-- - Task (src/opencode_orchestrator/task_state.py). Phase has the phases and their table
--   `TRANSITIONS`, States the other states of a task and `new_task_id`, Store the operations of
--   `TaskStore` (`create`, `load`, `save`, `transition`, `update`) over a store that is passed along.
-- - Mcp (src/opencode_orchestrator/mcp_protocol.py). The state of `MCPProtocolServer` is the record
--   `Server`, and each of its critical sections is a function: `handle`, `_schedule_tool`,
--   `_complete_tool`, `_cancel_request` and the first half of `shutdown`. An interleaving of the
--   reader and the executor's threads is a list of events.
--   Progress is the closure of `_progress_reporter`, which sends a tool's progress.
-- - Cancellation (src/opencode_orchestrator/cancellation.py). `CancellationToken`, with a schedule of its
--   uses: what an operation does under the lock is a step, and each call of a callback after it is one.
-- - Assessment (src/opencode_orchestrator/policy.py). `classify_risk` and `validate_allowed_paths`.
-- - Pending (src/opencode_orchestrator/pending_input.py). What OpenCode asks for, permissions here and
--   questions in Questions, is normalized to a record, which `evaluate_permission` reads as a `dict` and
--   which is published as an event.
-- - Wait (src/opencode_orchestrator/wait_coordinator.py). `WaitCoordinator` with its leases, as a state
--   that `attach`, `_enter`, `_exit`, `cancel_task` and `cancel_request` change; an entry and an exit
--   write the task's state by `update` of the store. Repair has the constructor, with
--   `_repair_stale_owners`, and Acts the histories of a coordinator.
-- - Stream (src/opencode_orchestrator/event_stream.py). `parse_sse_lines`, Sanitize (what may be logged
--   of an event), Messages (`progress_message`) and Session (`wait_for_session`, whose loop is cut into
--   rounds). Frames is about the parser, Shape and Visible about Sanitize, Bounded about Messages, and
--   Outcomes about Session.
-- - Collector (src/opencode_orchestrator/collector.py). `normalize_messages`, which keeps the public parts
--   of a session's messages, `last_assistant_text` and `truncate_text`.
-- - Progress (src/opencode_orchestrator/progress.py). `is_meaningful_progress`, `last_turn_finished` (Turns),
--   `latest_message_progress_at` (Newest), `pending_tools` (Tools, Pending and Unique) and `idle_seconds`.
-- - Tool (src/opencode_orchestrator/tool_service.py). The checks of `ToolService.call`: Contract, Reply
--   and Call, which ends where the service is called, with a `Command`; Outcome has `_common`. Evaluable
--   joins it to the permission policy, and Ids to the store.
-- - Text and Value: Python's `str` with the operations that the program uses, the standard library's
--   `shlex.split` and `fnmatch.fnmatchcase`, and the values that JSON decodes to.
-- - Prelude: tests, lists and results that the parts share.
--
-- How the code is read. Code that raises returns a `Result`; an error is the check that raised,
-- without its message. `str.lower` is a parameter, `lower`, of the definitions that use it. A `dict` has
-- each key once; a `float` is its bit pattern, and is compared by it. `fnmatchcase` reads a pattern
-- item by item, as the expression that the standard library translates it to; the only fuel of the
-- development is the length of the pattern there, and each item takes at least one character of it.
-- The attempts of `update` to take a lock are the 51 of the source, and whether an attempt finds the
-- lock free is an argument, as the clock is. In a store, a state is what the JSON file holds; writes
-- replace it as a whole, as `os.replace` does.
--
-- An operation of the coordinator is one step: what other threads do while it runs comes before or
-- after it. Parameters are `json.loads`, Python's `==` on numbers (`same_number`), what a round of
-- `wait_for_session` sees of the token and of its deadline, `os.kill`, the wait locks that other
-- processes hold when a coordinator starts, the reading of dates (`parse_timestamp`), Python's `str` on
-- what is no text (`shown`), and the answers of the observer of a wait.
--
-- What is not modelled: HTTP, sockets, git, processes, threads other than by the order of their
-- events, the text of error messages, and the remaining modules of the package. So the moves of a task
-- that src/opencode_orchestrator/service.py makes by mutators of its own, which set the phase without
-- asking the table, are not modelled; `transition` is. It takes updates that do not repeat the names
-- of its own parameters, which Python refuses.
pub mod Prelude
pub mod Text
pub mod Value
pub mod Permission
pub mod Task
pub mod Mcp
pub mod Cancellation
pub mod Assessment
pub mod Pending
pub mod Wait
pub mod Stream
pub mod Tool
pub mod Collector
pub mod Progress
