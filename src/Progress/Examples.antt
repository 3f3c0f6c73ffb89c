-- ===== src/Progress/Examples.antt =====
-- Runs of progress.py on a transcript whose turn is finished.
use opencode_orchestrator.Prelude.{
  ℕ, ◌*◌, length, String, ◌≡◌, refl, ◌++◌, true, List, [], ◌∷◌, Option, none, some, All,
}
use opencode_orchestrator.Text.{Text, codes}
use opencode_orchestrator.Value.{
  Value, pos, int, str, arr, obj, nil, cons, Fields, end, field, of_list,
}
use opencode_orchestrator.Progress.{
  Timestamp, is_meaningful_progress, latest_message_progress_at, idle_seconds,
}
use opencode_orchestrator.Progress.Turns.{IsFinished, IsUnstarted, last_turn_finished-IsFinished}
use opencode_orchestrator.Progress.Newest.{
  all_stamps, IsNewest, latest_message_progress_at-IsNewest,
}
use opencode_orchestrator.Progress.Tools.{PendingTool, pending_tools}
use opencode_orchestrator.Progress.Pending.{IsPending, pending_tools-All}
use opencode_orchestrator.Progress.Unique.{AreDistinct, pending_tools-AreDistinct}
use opencode_orchestrator.Progress.Run.{running}

abbrev role : String → Fields → Fields
role r rest = field (codes "role") (str (codes r)) rest

abbrev asked : Value
asked = obj (role "user" end)

abbrev answered : Value
answered = obj (
    field (codes "info")
      (obj (
        role "assistant"
          (field (codes "time") (obj (field (codes "completed") (int (pos 5)) end)) end)))
      (field (codes "parts")
        (arr (cons (obj (field (codes "type") (str (codes "step-finish")) end)) nil)) end))

abbrev begun : Value
begun = obj (role "assistant" end)

abbrev transcript : List Value
transcript = asked ∷ answered ∷ begun ∷ []

last_turn_finished-IsFinished_example :
    (earlier : List Value) × (m : Value) × (later : List Value) × (transcript
      ≡ earlier ++ (m ∷ later))
    × IsFinished m
    × All IsUnstarted later
unfolding running
last_turn_finished-IsFinished_example = last_turn_finished-IsFinished transcript refl

-- the number of milliseconds, as its own text
abbrev milliseconds : Value → Option Timestamp
milliseconds (int (pos n)) = some (n ∷ [], n)
milliseconds _ = none

latest_message_progress_at-IsNewest_example :
    IsNewest 310
      (all_stamps milliseconds transcript)
      (latest_message_progress_at milliseconds 10 300 (arr (of_list transcript)))
latest_message_progress_at-IsNewest_example =
    latest_message_progress_at-IsNewest milliseconds 10 300 transcript

latest_lem :
    latest_message_progress_at milliseconds 10 300 (arr (of_list transcript)) ≡ some (5 ∷ [])
unfolding running
latest_lem = refl

is_meaningful_lem :
    is_meaningful_progress
      (obj (
        field (codes "type") (str (codes "tool.started")) (
          field
            (codes "properties")
            (obj (field (codes "sessionID") (str (codes "ses_1")) end))
            end)))
      (codes "ses_1")
    ≡ true
unfolding running
is_meaningful_lem = refl

idle_lem : idle_seconds (λ s. some (length s * 1000000)) (codes "abc") (codes "a") ≡ some 0
unfolding running
idle_lem = refl

abbrev tool_part : String → ℕ → Value
tool_part id start = obj (
    field (codes "type") (str (codes "tool")) (
      field (codes "tool") (str (codes "bash")) (
        field (codes "id") (str (codes id)) (
          field (codes "callID") (str (codes "c")) (
            field (codes "state")
              (obj (
                field (codes "status") (str (codes "running"))
                  (field (codes "time") (obj (field (codes "start") (int (pos start)) end)) end)))
              end)))))

abbrev busy : Value
busy = arr (
    cons
      (obj
        (field (codes "parts") (arr (cons (tool_part "p2" 7) (cons (tool_part "p1" 3) nil))) end))
      nil)

ids : List PendingTool → List Text
ids [] = []
ids (t ∷ ts) = t.part_id ∷ ids ts

pending_tools_lem : ids (pending_tools milliseconds busy) ≡ codes "p1" ∷ codes "p2" ∷ []
unfolding running ids
pending_tools_lem = refl

pending_tools-All_example : All IsPending (pending_tools milliseconds busy)
pending_tools-All_example = pending_tools-All milliseconds busy

-- the same tool in two messages
abbrev repeated : Value
repeated = arr (
    cons
      (obj
        (field (codes "parts") (arr (cons (tool_part "p2" 7) (cons (tool_part "p1" 3) nil))) end))
      (cons (obj (field (codes "parts") (arr (cons (tool_part "p2" 9) nil)) end)) nil))

repeated_lem : ids (pending_tools milliseconds repeated) ≡ codes "p1" ∷ codes "p2" ∷ []
unfolding running ids
repeated_lem = refl

pending_tools-AreDistinct_example : AreDistinct (pending_tools milliseconds repeated)
pending_tools-AreDistinct_example = pending_tools-AreDistinct milliseconds repeated
