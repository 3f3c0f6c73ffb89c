-- ===== src/Mcp/Answers.antt =====
-- Which messages `MCPProtocolServer` in mcp_protocol.py answers: a request gets one line of output or
-- is accepted as a call of a tool.
use opencode_orchestrator.Prelude.{◌≡◌, Bool, true, false, ◌||◌, [], ◌∷◌, ◌++◌, Option, some}
use opencode_orchestrator.Prelude.Result.{Result, ok, err}
use opencode_orchestrator.Text.{Text, codes, text_eq}
use opencode_orchestrator.Value.{Value, str}
use opencode_orchestrator.Mcp.{
  Server, Call, Crash, unhashable_id, Output, result, error, is_hashable, has_key,
}

abbrev pub answered : Output → Value
answered (result id b) = id
answered (error id f) = id

-- one line of output for `id`, and no call started; or the call started, and no output
pub data Answers (id : Value) (s s' : Server) : Type 0 where
  replied :
      (o : Output)
      → answered o ≡ id
      → s'.written ≡ s.written ++ (o ∷ [])
      → s'.started ≡ s.started
      → Answers id s s'
  accepted :
      (c : Call)
      → c.request_id ≡ id
      → s.initialized ≡ true
      → has_key id s.pending ≡ false
      → s'.started ≡ s.started ++ (c ∷ [])
      → s'.pending ≡ s.pending ++ (id ∷ [])
      → s'.written ≡ s.written
      → Answers id s s'

-- how the handling of a request ends: it is answered or accepted, or it raises, and that only where a
-- call of a tool in an initialized server has an id that cannot be a key
abbrev pub Handled : Value → Option Value → Server → Result Crash Server → Type 0
Handled id method s (ok s') = Answers id s s'
Handled id method s (err unhashable_id) =
    (is_hashable id ≡ false) × (s.initialized ≡ true) × (method ≡ some (str (codes "tools/call")))

abbrev tools_call : Option Value
tools_call = some (str (codes "tools/call"))

-- the two methods that are notifications
abbrev pub is_notification : Text → Bool
is_notification m =
    text_eq m (codes "notifications/initialized") || text_eq m (codes "notifications/cancelled")

-- the method of a request: not one of the two notifications
abbrev pub AsksFor : Option Value → Type 0
AsksFor (some (str m)) = is_notification m ≡ false
AsksFor _ = Unit
