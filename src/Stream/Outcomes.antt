-- ===== src/Stream/Outcomes.antt =====
-- What `wait_for_session` of event_stream.py returns: the first event of the session that ends the wait.
use opencode_orchestrator.Prelude.{
  ℕ, suc, ◌≡◌, refl, subst, Bool, true, false, not, ◌&&◌, List, Option, none, some, ◌⊎◌, inl, inr,
  arith, if◌then◌else◌, if_ind,
}
use opencode_orchestrator.Prelude.Result.{Result, ok, err}
use opencode_orchestrator.Text.{Text, codes, text_eq, look_up}
use opencode_orchestrator.Text.Laws.{text_eq-eq}
use opencode_orchestrator.Value.{Value, null, bool, int, float, str, arr, obj, Fields, get}
use opencode_orchestrator.Stream.{SseEvent, SseStream, finished, raised, next}
use opencode_orchestrator.Stream.Sanitize.{
  StreamError, type_text, kind_of, sanitized_event, sanitize_event_for_log,
}
use opencode_orchestrator.Stream.Session.{
  Counters, EventOutcome, Act, Outside, LoopState, cancelled_outcome, empty_outcome, is_own,
  relevant_kind, shown_type, Round, stops, goes, end_round, conclude, observe, log_round,
  report_round, event_round, payload_round, round, ended, add_acts, wait_rounds, wait_for_session,
}

-- the kind of an event and what is shown of it, if it ends the wait of a session
abbrev pub outcome_as : Fields → Text → Option Text → Option (Text × Fields)
outcome_as event event_type none = none
outcome_as event event_type (some kind) = some (kind, sanitized_event event_type event)

abbrev pub typed_outcome : Text → Fields → Result StreamError (Option Text) → Option (Text × Fields)
typed_outcome session_id event (ok (some event_type)) =
    outcome_as event event_type (if is_own event session_id then kind_of event_type else none)
typed_outcome session_id event _ = none

abbrev pub payload_outcome : Text → Value → Option (Text × Fields)
payload_outcome session_id (obj event) =
    typed_outcome session_id event (type_text (get (codes "type") event))
payload_outcome session_id _ = none

abbrev first_of : Option (Text × Fields) → Option (Text × Fields) → Option (Text × Fields)
first_of none rest = rest
first_of (some o) rest = some o

-- the first event of a stream that ends the wait of a session
abbrev pub first_outcome : Text → SseStream → Option (Text × Fields)
first_outcome session_id finished = none
first_outcome session_id raised = none
first_outcome session_id (next item rest) =
    first_of (payload_outcome session_id item.payload) (first_outcome session_id rest)

-- the observer has no opinion, in any round
abbrev pub IsSilent : Outside → Type 0
IsSilent w =
    (i : ℕ) (sanitized : Fields) (counters : Counters) → w.observed i sanitized counters ≡ none

-- a wait that was cancelled, or that was late, in some round
abbrev pub IsStopped : Outside → EventOutcome → Type 0
IsStopped w o =
    (i : ℕ) × ((((w.seen i).token.is_set ≡ true) × (o.kind ≡ codes "cancelled"))
      ⊎ (((w.seen i).is_late ≡ true) × (o.kind ≡ codes "timeout")))

-- the outcome that a reference to the first event of the stream gives
abbrev pub IsOutcome : Outside → Option (Text × Fields) → EventOutcome → Type 0
IsOutcome w found o =
    IsStopped w o
    ⊎ (((o.kind ≡ codes "disconnected") × (found ≡ none)) ⊎ (found ≡ some (o.kind, o.event)))

module _ (w : Outside) (silent : IsSilent w) (session_id : Text) where
  -- a round ends with an outcome of its event, or its event has none
  IsRound : Option (Text × Fields) → Round → Type 0
  IsRound found (stops (ok o) acts) = IsStopped w o ⊎ (found ≡ some (o.kind, o.event))
  IsRound found (stops (err e) acts) = Unit
  IsRound found (goes st acts) = found ≡ none

  end_round-IsRound :
      (st : LoopState) (event : Fields) (t : Text) (o : Option Text) (acts : List Act)
      → IsRound (outcome_as event t o) (end_round st event t o acts)
  unfolding end_round IsRound
  end_round-IsRound st event t none acts = refl
  end_round-IsRound st event t (some kind) acts = inr refl

  conclude-IsRound :
      (st : LoopState) (event sanitized : Fields) (event_type : Option Text) (acts : List Act)
      → IsRound
          (typed_outcome session_id event (ok event_type))
          (conclude st session_id event sanitized event_type acts)
  unfolding conclude IsRound relevant_kind
  conclude-IsRound st event sanitized none acts = refl
  conclude-IsRound st event sanitized (some t) acts =
      end_round-IsRound st event t (if is_own event session_id then kind_of t else none) _

  -- the event of the first connection ends no wait
  connected-none :
      (event : Fields) (o : Option Value) (rest : Bool)
      → (text_eq (shown_type w.shown o) (codes "server.connected") && rest) ≡ true
      → typed_outcome session_id event (type_text o) ≡ none
  unfolding type_text shown_type relevant_kind kind_of look_up text_eq
  connected-none event (some (str s)) rest h =
      let same : s ≡ codes "server.connected" =
        text_eq-eq s (codes "server.connected") (ground arith) in
      rw same (other (is_own event session_id))
    where
      other :
          (b : Bool)
          → outcome_as event
              (codes "server.connected")
              (if b then kind_of (codes "server.connected") else none)
            ≡ none
      other true = refl
      other false = refl
  connected-none event none rest h = refl
  connected-none event (some null) rest h = refl
  connected-none event (some (bool b)) rest h = refl
  connected-none event (some (int n)) rest h = refl
  connected-none event (some (float x)) rest h = refl
  connected-none event (some (arr vs)) rest h = refl
  connected-none event (some (obj fs)) rest h = refl

  observe-IsRound :
      (first : Bool) (st : LoopState) (event sanitized : Fields) (event_type : Option Text)
      (acts : List Act) (o : Option EventOutcome)
      → o ≡ none
      → (first ≡ true → typed_outcome session_id event (ok event_type) ≡ none)
      → IsRound
          (typed_outcome session_id event (ok event_type))
          (observe first st session_id event sanitized event_type acts o)
  unfolding observe IsRound
  observe-IsRound first st event sanitized event_type acts (some o) e h = cc
  observe-IsRound true st event sanitized event_type acts none e h = h refl
  observe-IsRound false st event sanitized event_type acts none e h =
      conclude-IsRound st event sanitized event_type acts

  log_round-IsRound :
      (i : ℕ) (first : Bool) (st : LoopState) (event : Fields) (acts : List Act)
      (r : Result StreamError Fields) (t : Result StreamError (Option Text))
      → (first ≡ true → typed_outcome session_id event t ≡ none)
      → IsRound
          (typed_outcome session_id event t)
          (log_round w i first st session_id event acts r t)
  unfolding log_round IsRound
  log_round-IsRound i first st event acts (err e) t h = tt
  log_round-IsRound i first st event acts (ok sanitized) (err e) h = tt
  log_round-IsRound i first st event acts (ok sanitized) (ok t) h =
      observe-IsRound first st event sanitized t acts (w.observed i sanitized st.counters)
        (silent i sanitized st.counters) h

  report_round-IsRound :
      (i : ℕ) (first : Bool) (st : LoopState) (event : Fields)
      (m : Result StreamError (Option Text))
      → (first ≡ true → payload_outcome session_id (obj event) ≡ none)
      → IsRound
          (payload_outcome session_id (obj event))
          (report_round w i first st session_id event m)
  unfolding report_round IsRound
  report_round-IsRound i first st event (err e) h = tt
  report_round-IsRound i first st event (ok m) h =
      log_round-IsRound i first st event _ (sanitize_event_for_log event)
        (type_text (get (codes "type") event)) h

  payload_round-IsRound :
      (i : ℕ) (st : LoopState) (v : Value)
      → IsRound (payload_outcome session_id v) (payload_round w i st session_id v)
  unfolding payload_round event_round IsRound
  payload_round-IsRound i st (obj event) =
      report_round-IsRound i _ _ event _
        (connected-none event (get (codes "type") event) (not st.connected))
  payload_round-IsRound i st null = tt
  payload_round-IsRound i st _ = tt

  round-IsRound :
      (i : ℕ) (st : LoopState) (item : SseEvent)
      → IsRound (payload_outcome session_id item.payload) (round w i st session_id item)
  unfolding round IsRound cancelled_outcome empty_outcome
  round-IsRound i st item =
      let P = IsRound (payload_outcome session_id item.payload) in
      if_ind P (w.seen i).token.is_set _ _ (λ set. inl (i, inl (set, refl)))
        (λ _.
          if_ind P (w.seen i).is_late _ _ (λ late. inl (i, inr (late, refl)))
            (λ _. payload_round-IsRound i st item.payload))

  IsReturned : Option (Text × Fields) → Result StreamError EventOutcome × List Act → Type 0
  IsReturned found (ok o, acts) = IsOutcome w found o
  IsReturned found (err e, acts) = Unit

  ended-IsOutcome : (i : ℕ) (counters : Counters) → IsOutcome w none (ended (w.seen i) counters)
  unfolding ended cancelled_outcome empty_outcome
  ended-IsOutcome i counters =
      if_ind (IsOutcome w none) (w.seen i).token.is_set _ _ (λ set. inl (i, inl (set, refl)))
        (λ _.
          if_ind (IsOutcome w none) (w.seen i).is_late _ _ (λ late. inl (i, inr (late, refl)))
            (λ _. inr (inl (refl, refl))))

  add_acts-IsReturned :
      (found : Option (Text × Fields)) (acts : List Act)
      (r : Result StreamError EventOutcome × List Act)
      → IsReturned found r
      → IsReturned found (add_acts acts r)
  unfolding IsReturned
  add_acts-IsReturned found acts (ok o, more) h = h
  add_acts-IsReturned found acts (err e, more) h = tt

  -- what `wait_rounds` makes of a round
  after : ℕ → SseStream → Round → Result StreamError EventOutcome × List Act
  after i rest r = elim r [
    | stops out acts ↦ (out, acts)
    | goes st acts ↦ add_acts acts (wait_rounds w (suc i) st session_id rest)
  ]

  after-IsReturned :
      (i : ℕ) (rest : SseStream) (found later : Option (Text × Fields)) (r : Round)
      → IsRound found r
      → ((st : LoopState) → IsReturned later (wait_rounds w (suc i) st session_id rest))
      → IsReturned (first_of found later) (after i rest r)
  unfolding after IsReturned IsRound
  after-IsReturned i rest found later (stops (ok o) acts) (inl h) k = inl h
  after-IsReturned i rest found later (stops (ok o) acts) (inr h) k = rw h (inr (inr refl))
  after-IsReturned i rest found later (stops (err x) acts) h k = tt
  after-IsReturned i rest found later (goes st acts) h k =
      rw h (add_acts-IsReturned later acts (wait_rounds w (suc i) st session_id rest) (k st))

  wait_rounds-IsReturned :
      (i : ℕ) (st : LoopState) (stream : SseStream)
      → IsReturned (first_outcome session_id stream) (wait_rounds w i st session_id stream)
  unfolding wait_rounds IsReturned after
  wait_rounds-IsReturned i st finished = ended-IsOutcome i st.counters
  wait_rounds-IsReturned i st raised = tt
  wait_rounds-IsReturned i st (next item rest) =
      after-IsReturned i rest (payload_outcome session_id item.payload)
        (first_outcome session_id rest) (round w i st session_id item) (round-IsRound i st item)
        (λ st'. wait_rounds-IsReturned (suc i) st' rest)

-- A wait returns the first event that ends it, and no other. Let the observer have no opinion in any
-- round. If the wait returns, then either a round found the token cancelled or the deadline passed,
-- and the kind of the outcome says so; or the stream is over and has no event of the session that
-- ends the wait, and the kind is `disconnected`; or the outcome is the first such event, with its
-- kind, sanitized.
pub wait_for_session-IsOutcome :
    (w : Outside) (session_id : Text) (stream : SseStream) {o : EventOutcome} {acts : List Act}
    → IsSilent w
    → wait_for_session w session_id stream ≡ (ok o, acts)
    → IsOutcome w (first_outcome session_id stream) o
unfolding wait_for_session cancelled_outcome IsReturned
wait_for_session-IsOutcome w session_id stream {o} {acts} silent e =
    subst (IsReturned w silent session_id (first_outcome session_id stream)) e (
      if_ind (IsReturned w silent session_id (first_outcome session_id stream))
        (w.seen 0).token.is_set _ _ (λ set. inl (0, inl (set, refl)))
        (λ _. wait_rounds-IsReturned w silent session_id 1 _ stream))
