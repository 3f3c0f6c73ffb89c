-- ===== src/Mcp.antt =====
-- src/opencode_orchestrator/mcp_protocol.py: `MCPProtocolServer` as a state and one function for each
-- of its critical sections. The executor that runs the tools is outside: a call that is accepted is
-- put in `started`, and its completion is an event that may come at any later time.
pub mod Keys
pub mod Events
pub mod Silence
pub mod Answers
pub mod Quiet
pub mod Progress
pub mod Run
pub mod Examples
use opencode_orchestrator.Prelude.{
  ℕ, suc, Bool, true, false, not, ◌&&◌, ◌||◌, List, [], ◌∷◌, ◌++◌, Option, none, some, ◌==◌, any,
  keep, is_empty, if◌then◌else◌,
}
use opencode_orchestrator.Prelude.Result.{Result, ok, err}
use opencode_orchestrator.Text.{Text, codes, text_eq}
use opencode_orchestrator.Value.{
  ℤ, pos, negsuc, Value, null, bool, int, float, str, arr, obj, Items, Fields, end, get,
}

-- What an error reply says; `code` is its number.
pub data Failure : Type 0 where
  parse_error invalid_request already_initialized duplicate_request : Failure
  bad_initialize_params bad_call_params bad_call_name bad_call_arguments bad_tool_arguments :
      Failure
  not_initialized method_not_found : Failure

unfoldable pub code : Failure → ℤ
code parse_error = negsuc 32699
code method_not_found = negsuc 32600
code not_initialized = negsuc 32001
code invalid_request = negsuc 32599
code already_initialized = negsuc 32599
code duplicate_request = negsuc 32599
code _ = negsuc 32601

-- how a tool ended: a result, `ToolInputError`, or another exception by its type's name
pub data ToolOutcome : Type 0 where
  returned : Value → ToolOutcome
  input_error : ToolOutcome
  raised : Text → ToolOutcome

pub data Body : Type 0 where
  server_info pong tool_list : Body
  tool_result : Value → Body
  tool_failed : Text → Body

-- one line of output, with the id that it answers
pub data Output : Type 0 where
  result : Value → Body → Output
  error : Value → Failure → Output

-- a call handed to the executor
pub record Call : Type 0 where
  pub request_id : Value
  pub name : Text
  pub arguments : Fields

-- `coordinator.cancel_request(str(request_id), reason)`, with the id before `str` is applied: the
-- coordinator is told of the text, under which the ids 1 and "1" are one
pub record CancelRequest : Type 0 where
  pub request_id : Value
  pub reason : Text

pub record Server : Type 0 where
  pub initialize_received : Bool
  pub initialized : Bool
  pub initialized_callback_run : Bool
  pub is_shutdown : Bool
  pub pending : List Value
  pub suppressed : List Value
  pub started : List Call
  pub cancellations : List CancelRequest
  pub written : List Output

-- `TypeError: unhashable type`, which nothing catches
pub data Crash : Type 0 where
  unhashable_id : Crash

unfoldable pub new_server : Server
new_server = record {
  initialize_received = false;
  initialized = false;
  initialized_callback_run = false;
  is_shutdown = false;
  pending = [];
  suppressed = [];
  started = [];
  cancellations = [];
  written = [];
}

abbrev same_bool : Bool → Bool → Bool
same_bool true b = b
same_bool false b = not b

abbrev same_int : ℤ → ℤ → Bool
same_int (pos a) (pos b) = a == b
same_int (negsuc a) (negsuc b) = a == b
same_int _ _ = false

-- Equality of two keys `(type(id), id)`. Floats are compared by their bits, so a NaN and the two
-- zeros are not as in Python.
unfoldable pub same_key : Value → Value → Bool
same_key null null = true
same_key (bool a) (bool b) = same_bool a b
same_key (int a) (int b) = same_int a b
same_key (float a) (float b) = a == b
same_key (str a) (str b) = text_eq a b
same_key _ _ = false

unfoldable pub is_hashable : Value → Bool
is_hashable (arr vs) = false
is_hashable (obj fs) = false
is_hashable _ = true

unfoldable pub has_key : Value → List Value → Bool
has_key id keys = any (same_key id) keys

unfoldable pub drop_key : Value → List Value → List Value
drop_key id keys = keep (λ k. not (same_key id k)) keys

unfoldable pub write : Output → Server → Server
write o s = record s { written = s.written ++ (o ∷ []) }

-- an error reply is sent to a request, and not to a notification
unfoldable pub reply_error : Option Value → Failure → Server → Server
reply_error none f s = s
reply_error (some id) f s = write (error id f) s

unfoldable pub reply : Option Value → Body → Server → Server
reply none b s = s
reply (some id) b s = write (result id b) s

-- `_schedule_tool`, from the duplicate test on
unfoldable pub submit : Server → Value → Text → Fields → Result Crash Server
submit s id name arguments =
    if not (is_hashable id)
    then err unhashable_id
    else if has_key id s.pending
    then ok (write (error id duplicate_request) s)
    else ok (record s {
      pending = s.pending ++ (id ∷ []);
      started = s.started ++ (record { request_id = id; name = name; arguments = arguments } ∷ []);
    })

unfoldable pub with_arguments : Server → Value → Text → Option Value → Result Crash Server
with_arguments s id name none = submit s id name end
with_arguments s id name (some (obj arguments)) = submit s id name arguments
with_arguments s id name (some _) = ok (write (error id bad_call_arguments) s)

unfoldable pub with_name : Server → Value → Option Value → Fields → Result Crash Server
with_name s id (some (str name)) params =
    if is_empty name
    then ok (write (error id bad_call_name) s)
    else with_arguments s id name (get (codes "arguments") params)
with_name s id _ params = ok (write (error id bad_call_name) s)

unfoldable pub schedule_tool : Server → Value → Value → Result Crash Server
schedule_tool s id (obj params) = with_name s id (get (codes "name") params) params
schedule_tool s id _ = ok (write (error id bad_call_params) s)

unfoldable pub cancel_reason : Option Value → Text
cancel_reason (some (str r)) = if is_empty r then codes "client-cancelled" else r
cancel_reason _ = codes "client-cancelled"

-- `_suppressed.add(key)`, for a set
abbrev pub add_key : Value → List Value → List Value
add_key id keys = if has_key id keys then keys else id ∷ keys

unfoldable pub cancel_id : Server → Option Value → Fields → Result Crash Server
cancel_id s none params = ok s
cancel_id s (some id) params =
    if not (is_hashable id)
    then err unhashable_id
    else ok (record s {
      suppressed = if has_key id s.pending then add_key id s.suppressed else s.suppressed;
      cancellations =
          s.cancellations
          ++ (record { request_id = id; reason = cancel_reason (get (codes "reason") params) }
              ∷ []);
    })

-- `_cancel_request`
unfoldable pub cancel_request : Server → Value → Result Crash Server
cancel_request s (obj params) = cancel_id s (get (codes "requestId") params) params
cancel_request s _ = ok s

abbrev pub is_object : Value → Bool
is_object (obj _) = true
is_object _ = false

unfoldable pub initialize : Server → Option Value → Value → Server
initialize s none params = s
initialize s (some id) params =
    if s.initialize_received
    then write (error id already_initialized) s
    else if not (is_object params)
    then write (error id bad_initialize_params) s
    else write (result id server_info) (record s { initialize_received = true })

unfoldable pub notify_initialized : Server → Server
notify_initialized s =
    if s.initialize_received
    then record s { initialized = true; initialized_callback_run = true }
    else s

unfoldable pub call_tool : Server → Option Value → Value → Result Crash Server
call_tool s none params = ok s
call_tool s (some id) params = schedule_tool s id params

-- the methods in the order of their tests
unfoldable pub dispatch : Server → Option Value → Text → Value → Result Crash Server
dispatch s id method params =
    if text_eq method (codes "initialize")
    then ok (initialize s id params)
    else if text_eq method (codes "notifications/initialized")
    then ok (notify_initialized s)
    else if text_eq method (codes "notifications/cancelled")
    then cancel_request s params
    else if not s.initialized
    then ok (reply_error id not_initialized s)
    else if text_eq method (codes "ping")
    then ok (reply id pong s)
    else if text_eq method (codes "tools/list")
    then ok (reply id tool_list s)
    else if text_eq method (codes "tools/call")
    then call_tool s id params
    else ok (reply_error id method_not_found s)

unfoldable pub speaks_jsonrpc : Option Value → Bool
speaks_jsonrpc (some (str v)) = text_eq v (codes "2.0")
speaks_jsonrpc _ = false

abbrev pub or_empty : Option Value → Value
or_empty none = obj end
or_empty (some v) = v

unfoldable pub handle_method : Server → Option Value → Option Value → Value → Result Crash Server
handle_method s id (some (str method)) params = dispatch s id method params
handle_method s id _ params = ok (reply_error id invalid_request s)

unfoldable pub handle : Server → Value → Result Crash Server
handle s (obj message) =
    if not (speaks_jsonrpc (get (codes "jsonrpc") message))
    then ok (reply_error (get (codes "id") message) invalid_request s)
    else handle_method s (get (codes "id") message) (get (codes "method") message)
        (or_empty (get (codes "params") message))
handle s _ = ok (write (error null invalid_request) s)

-- `_complete_tool`
unfoldable pub outcome_reply : Value → ToolOutcome → Output
outcome_reply id (returned v) = result id (tool_result v)
outcome_reply id input_error = error id bad_tool_arguments
outcome_reply id (raised name) = result id (tool_failed name)

unfoldable pub complete : Server → Value → ToolOutcome → Server
complete s id outcome =
    let finished = record s {
      pending = drop_key id s.pending;
      suppressed = drop_key id s.suppressed;
    } in
    if has_key id s.suppressed then finished else write (outcome_reply id outcome) finished

abbrev pub add_keys : List Value → List Value → List Value
add_keys [] keys = keys
add_keys (id ∷ ids) keys = add_keys ids (add_key id keys)

abbrev shutdown_cancellations : List Value → List CancelRequest
shutdown_cancellations [] = []
shutdown_cancellations (id ∷ ids) =
    record { request_id = id; reason = codes "server-shutdown" } ∷ shutdown_cancellations ids

-- `shutdown`, up to the wait for the executor
unfoldable pub shutdown : Server → Server
shutdown s = if s.is_shutdown then s else record s {
  is_shutdown = true;
  suppressed = add_keys s.pending s.suppressed;
  cancellations = s.cancellations ++ shutdown_cancellations s.pending;
}
