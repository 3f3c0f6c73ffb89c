-- ===== src/Tool/Outcome.antt =====
-- What tool_service.py answers from a task's state: `_state_outcome`, the tables of `_summary` and
-- `_next_action`, and `_common`. Of a state's `opencode`, what is no `dict` raises.
use opencode_orchestrator.Prelude.{
  ◌≡◌, refl, Bool, false, ◌||◌, List, [], ◌∷◌, Option, none, some, if◌then◌else◌, if_ind,
}
use opencode_orchestrator.Prelude.Result.{Result, ok, err, ◌>>=◌}
use opencode_orchestrator.Text.{Text, codes, text_eq, look_up}
use opencode_orchestrator.Value.{Value, pos, null, int, str, obj, Fields, end, field, get}
use opencode_orchestrator.Tool.{value_or_null}

pub data AnswerError : Type 0 where
  missing_key bad_opencode unknown_outcome : AnswerError

-- `state.get(key) == text`
abbrev pub text_is : Option Value → Text → Bool
text_is (some (str s)) t = text_eq s t
text_is _ t = false

unfoldable pub state_outcome : Fields → Text
state_outcome state =
    let execution = get (codes "execution_state") state in
    if text_is execution (codes "COMPLETED")
    then codes "COMPLETED"
    else if text_is execution (codes "INPUT_REQUIRED")
        || text_is (get (codes "phase") state) (codes "AWAITING_APPROVAL")
    then codes "INPUT_REQUIRED"
    else if text_is execution (codes "FAILED")
    then codes "FAILED"
    else if text_is execution (codes "ABORTED")
    then codes "ABORTED"
    else if text_is execution (codes "STALLED")
    then codes "STALLED"
    else if text_is (get (codes "wait_state") state) (codes "CANCELLED")
    then codes "WAIT_CANCELLED"
    else codes "INTERRUPTED"

abbrev summaries : List (Text × Text)
summaries =
    (codes "COMPLETED", codes "OpenCode task data is ready for review.")
    ∷ (codes "INPUT_REQUIRED", codes "The task requires an explicit reply or approval.")
    ∷ (codes "FAILED", codes "The OpenCode task failed.")
    ∷ (codes "ABORTED", codes "The OpenCode task was explicitly aborted.")
    ∷ (codes "WAIT_CANCELLED", codes "The local wait was cancelled; OpenCode was not aborted.")
    ∷ (codes "INTERRUPTED", codes "The task is preserved and can be resumed.")
    ∷ (codes "STALLED", codes "The task stopped making progress and needs stall diagnostics.")
    ∷ []

abbrev next_actions : List (Text × Text)
next_actions =
    (codes "COMPLETED", codes "review_result")
    ∷ (codes "INPUT_REQUIRED", codes "reply_and_wait")
    ∷ (codes "FAILED", codes "inspect_failure")
    ∷ (codes "ABORTED", codes "inspect_partial_result")
    ∷ (codes "WAIT_CANCELLED", codes "resume_wait")
    ∷ (codes "INTERRUPTED", codes "resume_wait")
    ∷ (codes "STALLED", codes "inspect_stall")
    ∷ []

abbrev in_table : Option Text → Result AnswerError Text
in_table none = err unknown_outcome
in_table (some s) = ok s

unfoldable pub summary : Text → Result AnswerError Text
summary outcome = in_table (look_up outcome summaries)

unfoldable pub next_action : Text → Result AnswerError Text
next_action outcome = in_table (look_up outcome next_actions)

-- `state[key]`
abbrev pub required : Option Value → Result AnswerError Value
required none = err missing_key
required (some v) = ok v

-- `state.get("opencode", {}).get("session_id")`
unfoldable pub opencode_session_id : Option Value → Result AnswerError Value
opencode_session_id none = ok null
opencode_session_id (some (obj opencode)) = ok (value_or_null (get (codes "session_id") opencode))
opencode_session_id (some _) = err bad_opencode

abbrev pub given_or : Option Text → Result AnswerError Text → Result AnswerError Text
given_or none default = default
given_or (some s) default = ok s

abbrev pub artifacts_of : Option Fields → Fields
artifacts_of none = end
artifacts_of (some fs) = fs

-- the `dict` of an answer
abbrev pub answer_fields :
    Value → Text → Value → Value → Value → Value → Text → Text → Fields → Fields
answer_fields task_id outcome execution_state wait_state review_state session_id text action
      artifacts =
    field (codes "schema_version") (int (pos 3)) (
      field (codes "task_id") task_id (
        field (codes "outcome") (str outcome) (
          field (codes "execution_state") execution_state (
            field (codes "wait_state") wait_state (
              field (codes "review_state") review_state (
                field (codes "opencode_session_id") session_id (
                  field (codes "summary") (str text) (
                    field (codes "next_action") (str action)
                      (field (codes "artifacts") (obj artifacts) end)))))))))

-- `_common`: an override is never the empty text
unfoldable pub common :
    Fields → Option Text → Option Text → Option Text → Option Fields → Result AnswerError Fields
common state outcome given_summary given_action artifacts = do
  resolved ← given_or outcome (ok (state_outcome state))
  task_id ← required (get (codes "task_id") state)
  execution_state ← required (get (codes "execution_state") state)
  wait_state ← required (get (codes "wait_state") state)
  session_id ← opencode_session_id (get (codes "opencode") state)
  text ← given_or given_summary (summary resolved)
  action ← given_or given_action (next_action resolved)
  ok (
      answer_fields task_id resolved execution_state wait_state
        (value_or_null (get (codes "review_state") state)) session_id text action
        (artifacts_of artifacts))

-- the outcomes that both tables have, and that a state can have
abbrev pub HasAnswer : Text → Type 0
HasAnswer outcome =
    (text : Text) × (action : Text) × (summary outcome ≡ ok text)
    × (next_action outcome ≡ ok action)

state_outcome-HasAnswer : (state : Fields) → HasAnswer (state_outcome state)
unfolding state_outcome summary next_action look_up text_eq
state_outcome-HasAnswer state =
    let execution = get (codes "execution_state") state in
    let P = HasAnswer in
    if_ind P (text_is execution (codes "COMPLETED")) _ _ (λ _. (_, _, refl, refl))
      (λ _.
        if_ind P
          (text_is execution (codes "INPUT_REQUIRED")
            || text_is (get (codes "phase") state) (codes "AWAITING_APPROVAL"))
          _ _ (λ _. (_, _, refl, refl))
          (λ _.
            if_ind P (text_is execution (codes "FAILED")) _ _ (λ _. (_, _, refl, refl))
              (λ _.
                if_ind P (text_is execution (codes "ABORTED")) _ _ (λ _. (_, _, refl, refl))
                  (λ _.
                    if_ind P (text_is execution (codes "STALLED")) _ _ (λ _. (_, _, refl, refl))
                      (λ _.
                        if_ind P (text_is (get (codes "wait_state") state) (codes "CANCELLED")) _ _
                          (λ _. (_, _, refl, refl)) (λ _. (_, _, refl, refl)))))))

-- A state has an answer: if it has a task id, an execution state and a wait state, and its `opencode`
-- is a `dict` or missing, `_common` returns without overrides; the outcome is that of the state, and
-- the summary and the next action are those of the tables.
pub common_total :
    (state : Fields) {task_id execution_state wait_state session_id : Value}
    (artifacts : Option Fields)
    → get (codes "task_id") state ≡ some task_id
    → get (codes "execution_state") state ≡ some execution_state
    → get (codes "wait_state") state ≡ some wait_state
    → opencode_session_id (get (codes "opencode") state) ≡ ok session_id
    → (answer : Fields) × (text : Text) × (action : Text) × (common state none none none artifacts
        ≡ ok answer)
      × (get (codes "outcome") answer ≡ some (str (state_outcome state)))
      × (summary (state_outcome state) ≡ ok text)
      × (get (codes "summary") answer ≡ some (str text))
      × (next_action (state_outcome state) ≡ ok action)
      × (get (codes "next_action") answer ≡ some (str action))
unfolding common get text_eq
common_total state {task_id} {execution_state} {wait_state} {session_id} artifacts a b c d =
    let (text, action, p, q) = state_outcome-HasAnswer state in
    (
      answer_fields task_id (state_outcome state) execution_state wait_state
          (value_or_null (get (codes "review_state") state)) session_id text action
          (artifacts_of artifacts),
      text,
      action,
      rw (a, b, c, d, p, q) refl,
      refl,
      p,
      refl,
      q,
      refl,
    )
