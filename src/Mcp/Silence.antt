-- ===== src/Mcp/Silence.antt =====
-- Cancelled calls of `MCPProtocolServer` in mcp_protocol.py: they end without a reply, whatever
-- messages and other completions come in between.
use opencode_orchestrator.Prelude.{
  ◌≡◌, true, false, List, [], ◌∷◌, Option, none, some, arith, All, Bool-cases, inl, inr, is_empty,
}
use opencode_orchestrator.Prelude.Result.{ok, >>=-eq-ok, IfOk, IfOk-ok}
use opencode_orchestrator.Text.{Text, codes}
use opencode_orchestrator.Value.{Value, null, str, obj, Fields, get}
use opencode_orchestrator.Mcp.{
  Server, Failure, not_initialized, method_not_found, invalid_request, pong, tool_list, ToolOutcome,
  Body, same_key, has_key, write, reply_error, reply, submit, with_arguments, with_name,
  schedule_tool, cancel_id, cancel_request, initialize, notify_initialized, call_tool, dispatch,
  handle_method, handle, complete, speaks_jsonrpc,
}
use opencode_orchestrator.Mcp.Events.{Event, message, completed, handle_event, handle_events}
use opencode_orchestrator.Mcp.Keys.{has_key-drop_key, has_key-add_key, add_key-has_key}

-- the event is not the end of the call `id`
abbrev pub Spares : Value → Event → Type 0
Spares id (message m) = Unit
Spares id (completed other outcome) = same_key other id ≡ false

-- the cancellation itself suppresses the call
cancel_request-suppresses :
    (s : Server) (id : Value) (params : Fields) {cancelled : Server}
    → has_key id s.pending ≡ true
    → get (codes "requestId") params ≡ some id
    → cancel_request s (obj params) ≡ ok cancelled
    → has_key id cancelled.suppressed ≡ true
unfolding cancel_request cancel_id
cancel_request-suppresses s id params p q c = ground (arith, add_key-has_key id s.suppressed)

-- A message suppresses more, and never less.
module _ (id : Value) where
  abbrev Stays : Server → Type 0
  Stays s = has_key id s.suppressed ≡ true

  cancel_id-Stays :
      (s : Server) (o : Option Value) (params : Fields)
      → Stays s
      → IfOk Stays (cancel_id s o params)
  unfolding cancel_id
  cancel_id-Stays s none params h = h
  cancel_id-Stays s (some x) params h = ground (arith, has_key-add_key id x s.suppressed)

  submit-Stays :
      (s : Server) (x : Value) (name : Text) (arguments : Fields)
      → Stays s
      → IfOk Stays (submit s x name arguments)
  unfolding submit write
  submit-Stays s x name arguments h = ground arith

  with_arguments-Stays :
      (s : Server) (x : Value) (name : Text) (o : Option Value)
      → Stays s
      → IfOk Stays (with_arguments s x name o)
  unfolding with_arguments write
  with_arguments-Stays s x name none h = submit-Stays s x name _ h
  with_arguments-Stays s x name (some (obj arguments)) h = submit-Stays s x name arguments h
  with_arguments-Stays s x name (some null) h = h
  with_arguments-Stays s x name (some _) h = h

  with_name-Stays :
      (s : Server) (x : Value) (o : Option Value) (params : Fields)
      → Stays s
      → IfOk Stays (with_name s x o params)
  unfolding with_name write
  with_name-Stays s x none params h = h
  with_name-Stays s x (some (str name)) params h = elim (Bool-cases (is_empty name)) [
    | inl empty ↦ rw empty h
    | inr filled ↦ rw filled (with_arguments-Stays s x name _ h)
  ]
  with_name-Stays s x (some null) params h = h
  with_name-Stays s x (some _) params h = h

  schedule_tool-Stays :
      (s : Server) (x params : Value) → Stays s → IfOk Stays (schedule_tool s x params)
  unfolding schedule_tool write
  schedule_tool-Stays s x (obj params) h = with_name-Stays s x _ params h
  schedule_tool-Stays s x null h = h
  schedule_tool-Stays s x _ h = h

  call_tool-Stays :
      (s : Server) (o : Option Value) (params : Value) → Stays s → IfOk Stays (call_tool s o params)
  unfolding call_tool
  call_tool-Stays s none params h = h
  call_tool-Stays s (some x) params h = schedule_tool-Stays s x params h

  cancel_request-Stays :
      (s : Server) (params : Value) → Stays s → IfOk Stays (cancel_request s params)
  unfolding cancel_request
  cancel_request-Stays s (obj params) h = cancel_id-Stays s _ params h
  cancel_request-Stays s null h = h
  cancel_request-Stays s _ h = h

  replies-Stay : (s : Server) (o : Option Value) (f : Failure) → Stays s → Stays (reply_error o f s)
  unfolding reply_error write
  replies-Stay s none f h = h
  replies-Stay s (some x) f h = h

  initialize-Stays :
      (s : Server) (o : Option Value) (params : Value) → Stays s → Stays (initialize s o params)
  unfolding initialize write
  initialize-Stays s none params h = h
  initialize-Stays s (some x) params h = ground arith

  notify_initialized-Stays : (s : Server) → Stays s → Stays (notify_initialized s)
  unfolding notify_initialized
  notify_initialized-Stays s h = ground arith

  reply-Stays : (s : Server) (o : Option Value) (b : Body) → Stays s → Stays (reply o b s)
  unfolding reply write
  reply-Stays s none b h = h
  reply-Stays s (some x) b h = h

  dispatch-Stays :
      (s : Server) (o : Option Value) (method : Text) (params : Value)
      → Stays s
      → IfOk Stays (dispatch s o method params)
  unfolding dispatch
  dispatch-Stays s o method params h = ground (
    arith,
    initialize-Stays s o params h,
    notify_initialized-Stays s h,
    cancel_request-Stays s params h,
    replies-Stay s o not_initialized h,
    reply-Stays s o pong h,
    reply-Stays s o tool_list h,
    call_tool-Stays s o params h,
    replies-Stay s o method_not_found h,
  )

  handle_method-Stays :
      (s : Server) (o m : Option Value) (params : Value)
      → Stays s
      → IfOk Stays (handle_method s o m params)
  unfolding handle_method
  handle_method-Stays s o none params h = replies-Stay s o invalid_request h
  handle_method-Stays s o (some (str method)) params h = dispatch-Stays s o method params h
  handle_method-Stays s o (some null) params h = replies-Stay s o invalid_request h
  handle_method-Stays s o (some _) params h = replies-Stay s o invalid_request h

  handle-Stays : (s : Server) (m : Value) → Stays s → IfOk Stays (handle s m)
  unfolding handle write
  handle-Stays s (obj fs) h = elim (Bool-cases (speaks_jsonrpc (get (codes "jsonrpc") fs))) [
    | inl speaks ↦ rw speaks (handle_method-Stays s _ _ _ h)
    | inr other ↦ rw other (replies-Stay s _ invalid_request h)
  ]
  handle-Stays s null h = h
  handle-Stays s _ h = h

  complete-Stays :
      (s : Server) (other : Value) (outcome : ToolOutcome)
      → same_key other id ≡ false
      → Stays s
      → Stays (complete s other outcome)
  unfolding complete write
  complete-Stays s other outcome n h = ground (arith, has_key-drop_key id other s.suppressed n h)

  handle_event-Stays :
      (s : Server) (e : Event) → Spares id e → Stays s → IfOk Stays (handle_event s e)
  unfolding handle_event
  handle_event-Stays s (message m) n h = handle-Stays s m h
  handle_event-Stays s (completed other outcome) n h = complete-Stays s other outcome n h

  handle_events-Stays :
      (s : Server) (es : List Event) {s' : Server}
      → All (Spares id) es
      → handle_events s es ≡ ok s'
      → Stays s
      → Stays s'
  unfolding handle_events
  handle_events-Stays s [] n e h = cc (e, h)
  handle_events-Stays s (x ∷ es) n e h =
      let (t, q, k) = >>=-eq-ok (handle_event s x) (λ u. handle_events u es) e in
      handle_events-Stays t es n.1 k
        (IfOk-ok Stays (handle_event s x) (handle_event-Stays s x n.0 h) q)

  -- a call that is suppressed ends without a line of output
  complete-silent :
      (s : Server) (outcome : ToolOutcome) → Stays s → (complete s id outcome).written ≡ s.written
  unfolding complete
  complete-silent s outcome h = rw h

-- A call that is cancelled while it is pending ends without a reply, however it ends: between the
-- cancellation and its end the server may handle any messages and end any other calls.
pub cancelled_call_silent :
    (s : Server) (id : Value) (params : Fields) (es : List Event) (outcome : ToolOutcome)
    {cancelled later : Server}
    → has_key id s.pending ≡ true
    → get (codes "requestId") params ≡ some id
    → cancel_request s (obj params) ≡ ok cancelled
    → All (Spares id) es
    → handle_events cancelled es ≡ ok later
    → (complete later id outcome).written ≡ later.written
cancelled_call_silent s id params es outcome {cancelled} {later} p q c n e =
    complete-silent id later outcome
      (handle_events-Stays id cancelled es n e (cancel_request-suppresses s id params p q c))
