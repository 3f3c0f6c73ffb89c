-- ===== src/Mcp/Events.antt =====
-- The order of events at `MCPProtocolServer` of mcp_protocol.py: the reader handles messages, and the
-- executor's threads end calls in between, each under the server's lock.
use opencode_orchestrator.Prelude.{List, [], ◌∷◌}
use opencode_orchestrator.Prelude.Result.{Result, ok, ◌>>=◌}
use opencode_orchestrator.Value.{Value}
use opencode_orchestrator.Mcp.{Server, Crash, ToolOutcome, handle, complete}

-- a message that is read, or the end of a call
pub data Event : Type 0 where
  message : Value → Event
  completed : Value → ToolOutcome → Event

unfoldable pub handle_event : Server → Event → Result Crash Server
handle_event s (message m) = handle s m
handle_event s (completed id outcome) = ok (complete s id outcome)

unfoldable pub handle_events : Server → List Event → Result Crash Server
handle_events s [] = ok s
handle_events s (e ∷ es) = do s' ← handle_event s e; handle_events s' es
