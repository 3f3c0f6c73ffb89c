-- ===== src/Mcp/Examples.antt =====
-- Runs of mcp_protocol.py on small inputs: the handshake, a call, its cancellation and its end.
use opencode_orchestrator.Prelude.{ℕ, All, ◌≡◌, refl, List, [], ◌∷◌, String}
use opencode_orchestrator.Prelude.Result.{Result, ok, err}
use opencode_orchestrator.Text.{codes}
use opencode_orchestrator.Value.{pos, Value, int, str, arr, nil, obj, Fields, end, field}
use opencode_orchestrator.Mcp.{
  Server, Crash, unhashable_id, returned, input_error, new_server, cancel_request, handle, complete,
}
use opencode_orchestrator.Mcp.Events.{Event, message, completed, handle_events}
use opencode_orchestrator.Mcp.Silence.{cancelled_call_silent}
use opencode_orchestrator.Mcp.Quiet.{IsQuiet, handle-IsQuiet}
use opencode_orchestrator.Mcp.Run.{running}
use opencode_orchestrator.Mcp.Progress.{
  ArePaced, IsVisible, new_reporter, report_all, report_all-ArePaced,
}

abbrev server_of : Result Crash Server → Server
server_of (ok s) = s
server_of (err e) = unfold new_server in new_server

abbrev notification : String → Value → Fields
notification method params =
    field (codes "jsonrpc") (str (codes "2.0"))
      (field (codes "method") (str (codes method)) (field (codes "params") params end))

abbrev request : Value → String → Value → Fields
request id method params = field (codes "id") id (notification method params)

abbrev seven : Value
seven = int (pos 7)

abbrev call_params : Value
call_params = obj (field (codes "name") (str (codes "oc_status")) end)

abbrev cancel_params : Fields
cancel_params = field (codes "requestId") seven end

abbrev ready : Server
ready = server_of (
    handle_events new_server (
      message (obj (request (int (pos 1)) "initialize" (obj end)))
      ∷ message (obj (notification "notifications/initialized" (obj end)))
      ∷ []))

abbrev calling : Server
calling = server_of (handle ready (obj (request seven "tools/call" call_params)))

abbrev cancelled_server : Server
cancelled_server = server_of (cancel_request calling (obj cancel_params))

abbrev events : List Event
events =
    message (obj (request (int (pos 8)) "ping" (obj end)))
    ∷ completed (int (pos 9)) input_error
    ∷ []

abbrev later_server : Server
later_server = server_of (handle_events cancelled_server events)

cancelled_call_silent_example :
    (complete later_server seven (returned (obj end))).written ≡ later_server.written
unfolding running
cancelled_call_silent_example =
    cancelled_call_silent calling seven cancel_params events (returned (obj end))
      {cancelled = cancelled_server} {later = later_server} refl refl refl (tt, (refl, tt)) refl

handle-IsQuiet_example : IsQuiet calling cancelled_server
unfolding running
handle-IsQuiet_example =
    handle-IsQuiet calling (notification "notifications/cancelled" (obj cancel_params))
      {s' = cancelled_server} refl refl

-- a call whose id is a list raises
handle_list_id : handle ready (obj (request (arr nil) "tools/call" call_params)) ≡ err unhashable_id
unfolding running
handle_list_id = refl

abbrev reports : List (ℕ × Value)
reports =
    (100, str (codes " building "))
    ∷ (150, str (codes "testing"))
    ∷ (400, str (codes "building"))
    ∷ (500, str (codes "testing"))
    ∷ []

report_all-ArePaced_example :
    ArePaced 200 (report_all 200 new_reporter reports).sent
    × All IsVisible (report_all 200 new_reporter reports).sent
report_all-ArePaced_example = report_all-ArePaced 200 reports
