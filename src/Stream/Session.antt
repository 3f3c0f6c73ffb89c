-- ===== src/Stream/Session.antt =====
-- `wait_for_session` of event_stream.py. `Seen` is what a round of the loop finds outside: the token,
-- and whether the deadline has passed. Round 0 is the test before the loop, and the last one is the
-- test after it. The callbacks return; `Act` is a call of one, and `observed` is what the observer
-- answers in a round. `shown` is Python's `str` on a value that is no text.
use opencode_orchestrator.Prelude.{
  ℕ, suc, Bool, true, false, not, ◌&&◌, ◌||◌, List, [], ◌∷◌, ◌++◌, Option, none, some,
  if◌then◌else◌,
}
use opencode_orchestrator.Prelude.Result.{Result, ok, err}
use opencode_orchestrator.Text.{Text, codes, text_eq}
use opencode_orchestrator.Value.{Value, null, str, obj, Fields, end, field, get}
use opencode_orchestrator.Cancellation.{CancellationToken}
use opencode_orchestrator.Stream.{SseEvent, SseStream, finished, raised, next}
use opencode_orchestrator.Stream.Sanitize.{
  StreamError, not_object, bad_json, type_text, kind_of, sanitized_event, sanitize_event_for_log,
}
use opencode_orchestrator.Stream.Messages.{progress_message}

abbrev pub Counters : Type 0
Counters = List (Text × ℕ)

pub record EventOutcome : Type 0 where
  pub kind : Text
  pub event : Fields
  pub counters : Counters

pub record Seen : Type 0 where
  pub token : CancellationToken
  pub is_late : Bool

pub data Act : Type 0 where
  connects : Act
  reports : Text → Act
  logs : Fields → Act

pub record Outside : Type 0 where
  pub seen : ℕ → Seen
  pub observed : ℕ → Fields → Counters → Option EventOutcome
  pub shown : Value → Text

pub record LoopState : Type 0 where
  pub counters : Counters
  pub connected : Bool

-- `counters[key] += 1`
unfoldable pub count : Text → Counters → Counters
count key [] = (key, 1) ∷ []
count key ((k, n) ∷ rest) = if text_eq k key then (k, suc n) ∷ rest else (k, n) ∷ count key rest

abbrev reason_value : Option Text → Value
reason_value none = null
reason_value (some reason) = str reason

unfoldable pub cancelled_outcome : CancellationToken → Counters → EventOutcome
cancelled_outcome token counters = record {
  kind = codes "cancelled";
  event = field (codes "reason") (reason_value token.reason) end;
  counters = counters;
}

unfoldable pub empty_outcome : Text → Counters → EventOutcome
empty_outcome kind counters = record { kind = kind; event = end; counters = counters }

-- `_session_id`
unfoldable pub event_session_id : Option Value → Option Value
event_session_id (some (obj properties)) = get (codes "sessionID") properties
event_session_id _ = none

abbrev is_session : Option Value → Text → Bool
is_session (some (str s)) t = text_eq s t
is_session _ t = false

-- `_session_id(event) == session_id`
unfoldable pub is_own : Fields → Text → Bool
is_own event session_id = is_session (event_session_id (get (codes "properties") event)) session_id

-- `relevant_event`, with the kind of the event
unfoldable pub relevant_kind : Fields → Text → Option Text → Option Text
relevant_kind event session_id none = none
relevant_kind event session_id (some event_type) =
    if is_own event session_id then kind_of event_type else none

-- `str(event.get("type", "unknown"))`
unfoldable pub shown_type : (Value → Text) → Option Value → Text
shown_type shown none = codes "unknown"
shown_type shown (some (str s)) = s
shown_type shown (some v) = shown v

-- a round returns or raises, or goes on; it has made calls
pub data Round : Type 0 where
  stops : Result StreamError EventOutcome → List Act → Round
  goes : LoopState → List Act → Round

abbrev report_act : Option Text → List Act
report_act none = []
report_act (some message) = reports message ∷ []

abbrev log_if : Bool → Fields → List Act
log_if true event = logs event ∷ []
log_if false event = []

-- `relevant_event`, and the return
unfoldable pub end_round : LoopState → Fields → Text → Option Text → List Act → Round
end_round st event event_type none acts = goes st acts
end_round st event event_type (some kind) acts =
    stops
      (ok
        (record { kind = kind; event = sanitized_event event_type event; counters = st.counters }))
      acts

-- the end of a round, after the observer
unfoldable pub conclude : LoopState → Text → Fields → Fields → Option Text → List Act → Round
conclude st session_id event sanitized none acts =
    goes st (acts ++ log_if (is_own event session_id) sanitized)
conclude st session_id event sanitized (some event_type) acts =
    end_round st event event_type (relevant_kind event session_id (some event_type))
      (acts ++ log_if (is_own event session_id) sanitized)

unfoldable pub observe :
    Bool → LoopState → Text → Fields → Fields → Option Text → List Act → Option EventOutcome → Round
observe first st session_id event sanitized event_type acts (some outcome) = stops (ok outcome) acts
observe first st session_id event sanitized event_type acts none =
    if first then goes st acts else conclude st session_id event sanitized event_type acts

-- from `sanitize_event_for_log` on
unfoldable pub log_round :
    Outside
    → ℕ
    → Bool
    → LoopState
    → Text
    → Fields
    → List Act
    → Result StreamError Fields
    → Result StreamError (Option Text)
    → Round
log_round w i first st session_id event acts (err e) event_type = stops (err e) acts
log_round w i first st session_id event acts (ok sanitized) (err e) = stops (err e) acts
log_round w i first st session_id event acts (ok sanitized) (ok event_type) =
    observe first st session_id event sanitized event_type acts (w.observed i sanitized st.counters)

abbrev connect_acts : Bool → List Act
connect_acts true = connects ∷ []
connect_acts false = []

-- from the progress message on
unfoldable pub report_round :
    Outside → ℕ → Bool → LoopState → Text → Fields → Result StreamError (Option Text) → Round
report_round w i first st session_id event (err e) = stops (err e) (connect_acts first)
report_round w i first st session_id event (ok message) =
    log_round w i first st session_id event (connect_acts first ++ report_act message)
      (sanitize_event_for_log event) (type_text (get (codes "type") event))

unfoldable pub event_round : Outside → ℕ → LoopState → Text → Fields → Round
event_round w i st session_id event =
    let event_type = shown_type w.shown (get (codes "type") event) in
    let first = text_eq event_type (codes "server.connected") && not st.connected in
    report_round w i first
      (record { counters = count event_type st.counters; connected = first || st.connected })
      session_id event
      (if first || is_own event session_id then progress_message event else ok none)

unfoldable pub payload_round : Outside → ℕ → LoopState → Text → Value → Round
payload_round w i st session_id (obj event) = event_round w i st session_id event
payload_round w i st session_id _ = stops (err not_object) []

unfoldable pub round : Outside → ℕ → LoopState → Text → SseEvent → Round
round w i st session_id item =
    let seen = w.seen i in
    if seen.token.is_set
    then stops (ok (cancelled_outcome seen.token st.counters)) []
    else if seen.is_late
    then stops (ok (empty_outcome (codes "timeout") st.counters)) []
    else payload_round w i st session_id item.payload

-- after the loop
unfoldable pub ended : Seen → Counters → EventOutcome
ended seen counters =
    if seen.token.is_set
    then cancelled_outcome seen.token counters
    else if seen.is_late
    then empty_outcome (codes "timeout") counters
    else empty_outcome (codes "disconnected") counters

abbrev pub add_acts :
    List Act
    → Result StreamError EventOutcome × List Act
    → Result StreamError EventOutcome × List Act
add_acts acts (r, more) = (r, acts ++ more)

unfoldable pub wait_rounds :
    Outside → ℕ → LoopState → Text → SseStream → Result StreamError EventOutcome × List Act
wait_rounds w i st session_id finished = (ok (ended (w.seen i) st.counters), [])
wait_rounds w i st session_id raised = (err bad_json, [])
wait_rounds w i st session_id (next item rest) = elim (round w i st session_id item) [
  | stops r acts ↦ (r, acts)
  | goes st' acts ↦ add_acts acts (wait_rounds w (suc i) st' session_id rest)
]

unfoldable pub wait_for_session :
    Outside → Text → SseStream → Result StreamError EventOutcome × List Act
wait_for_session w session_id stream =
    let token = (w.seen 0).token in
    if token.is_set
    then (ok (cancelled_outcome token []), [])
    else wait_rounds w 1 (record { counters = []; connected = false }) session_id stream
