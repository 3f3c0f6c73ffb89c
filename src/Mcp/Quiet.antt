-- ===== src/Mcp/Quiet.antt =====
-- Messages to `MCPProtocolServer` in mcp_protocol.py that are not answered.
use opencode_orchestrator.Prelude.{◌≡◌, refl, not, Option, none, some, if_ind}
use opencode_orchestrator.Prelude.Result.{Result, ok, IfOk, IfOk-ok}
use opencode_orchestrator.Text.{Text, codes, text_eq}
use opencode_orchestrator.Value.{Value, null, str, obj, Fields, get}
use opencode_orchestrator.Mcp.{
  Server, Crash, is_hashable, reply_error, reply, cancel_id, cancel_request, initialize,
  notify_initialized, call_tool, dispatch, handle_method, handle, or_empty, speaks_jsonrpc,
}

-- no output, and no call started
pub record IsQuiet (s s' : Server) : Type 0 where
  pub no_output : s'.written ≡ s.written
  pub no_call : s'.started ≡ s.started
  pub same_calls : s'.pending ≡ s.pending

quiet : (s : Server) → IsQuiet s s
quiet s = record { no_output = refl; no_call = refl; same_calls = refl }

cancel_request-IsQuiet : (s : Server) (params : Value) → IfOk (IsQuiet s) (cancel_request s params)
unfolding cancel_request
cancel_request-IsQuiet s (obj params) = cancelled (get (codes "requestId") params)
  where
    cancelled : (o : Option Value) → IfOk {E = Crash} (IsQuiet s) (cancel_id s o params)
    cancelled none = unfold cancel_id in quiet s
    cancelled (some x) =
        unfold cancel_id in
        if_ind (IfOk {E = Crash} (IsQuiet s)) (not (is_hashable x)) _ _ (λ _. tt)
          (λ _. record { no_output = refl; no_call = refl; same_calls = refl })
cancel_request-IsQuiet s null = quiet s
cancel_request-IsQuiet s _ = quiet s

notify_initialized-IsQuiet : (s : Server) → IsQuiet s (notify_initialized s)
unfolding notify_initialized
notify_initialized-IsQuiet s =
    if_ind (IsQuiet s) s.initialize_received _ _
      (λ _. record { no_output = refl; no_call = refl; same_calls = refl }) (λ _. quiet s)

dispatch-IsQuiet :
    (s : Server) (method : Text) (params : Value) → IfOk (IsQuiet s) (dispatch s none method params)
unfolding dispatch initialize reply_error reply call_tool
dispatch-IsQuiet s method params =
    if_ind P (text_eq method (codes "initialize")) _ _ (λ _. quiet s)
      λ _.
        if_ind P (text_eq method (codes "notifications/initialized")) _ _
          (λ _. notify_initialized-IsQuiet s)
          λ _.
            if_ind P (text_eq method (codes "notifications/cancelled")) _ _
              (λ _. cancel_request-IsQuiet s params)
              λ _.
                if_ind P (not s.initialized) _ _ (λ _. quiet s)
                  λ _.
                    if_ind P (text_eq method (codes "ping")) _ _ (λ _. quiet s)
                      λ _.
                        if_ind P (text_eq method (codes "tools/list")) _ _ (λ _. quiet s)
                          λ _.
                            if_ind P (text_eq method (codes "tools/call")) _ _ (λ _. quiet s)
                              λ _. quiet s
  where
    P : Result Crash Server → Type 0
    P = IfOk (IsQuiet s)

-- A message without an id is a notification: it is never answered, and starts no tool.
pub handle-IsQuiet :
    (s : Server) (fs : Fields) {s' : Server}
    → get (codes "id") fs ≡ none
    → handle s (obj fs) ≡ ok s'
    → IsQuiet s s'
unfolding handle
handle-IsQuiet s fs e h =
    IfOk-ok (IsQuiet s) (handle s (obj fs))
      (rw e (
        if_ind (IfOk (IsQuiet s)) (not (speaks_jsonrpc (get (codes "jsonrpc") fs))) _ _
          (λ _. unfold reply_error in quiet s) (λ _. by_method (get (codes "method") fs))))
      h
  where
    by_method :
        (o : Option Value)
        → IfOk {E = Crash} (IsQuiet s) (handle_method s none o (or_empty (get (codes "params") fs)))
    by_method none = unfold handle_method reply_error in quiet s
    by_method (some (str m)) = unfold handle_method in dispatch-IsQuiet s m _
    by_method (some null) = unfold handle_method reply_error in quiet s
    by_method (some _) = unfold handle_method reply_error in quiet s
