-- ===== src/Stream/Examples.antt =====
-- Runs of event_stream.py: a stream that connects and then finishes, and what is shown of an error.
use opencode_orchestrator.Prelude.{◌≡◌, refl, subst, false, [], ◌∷◌, Option, none, some}
use opencode_orchestrator.Prelude.Result.{IfOk}
use opencode_orchestrator.Prelude.{IfSome}
use opencode_orchestrator.Text.{Text, codes}
use opencode_orchestrator.Value.{Value, str, obj, Fields, end, field}
use opencode_orchestrator.Cancellation.{new_token}
use opencode_orchestrator.Stream.{SseStream, finished, next, parse_sse_lines}
use opencode_orchestrator.Stream.Frames.{
  Frame, IsLine, IsFrame, frame_lines, parse_sse_lines-frame_lines,
}
use opencode_orchestrator.Stream.Sanitize.{visible_properties}
use opencode_orchestrator.Stream.Shape.{AllFields, IsVisibleField}
use opencode_orchestrator.Stream.Visible.{visible_properties-AllFields}
use opencode_orchestrator.Stream.Messages.{progress_message}
use opencode_orchestrator.Stream.Bounded.{IsMessage, progress_message-IsMessage}
use opencode_orchestrator.Stream.Session.{Outside, EventOutcome, connects, reports, logs}
use opencode_orchestrator.Stream.Outcomes.{IsOutcome, first_outcome, wait_for_session-IsOutcome}
use opencode_orchestrator.Stream.Run.{running}

-- two texts that are JSON
abbrev loads : Text → Option Value
loads s = some (str s)

abbrev first_frame : Frame
first_frame = record { name = some (codes "message"); lines = codes "{" ∷ codes "}" ∷ [] }

abbrev second_frame : Frame
second_frame = record { name = none; lines = codes ": 1" ∷ [] }

IsFrame-first_frame : IsFrame first_frame
unfolding running
IsFrame-first_frame = record {
  name_IsLine = λ s e. subst (IfSome IsLine) e refl;
  lines_AreLines = (refl, (refl, tt));
}

IsFrame-second_frame : IsFrame second_frame
unfolding running
IsFrame-second_frame = record { name_IsLine = λ s e. cc; lines_AreLines = (refl, tt) }

parse_sse_lines-frame_lines_example :
    parse_sse_lines loads (frame_lines (13 ∷ 10 ∷ []) (first_frame ∷ second_frame ∷ []))
    ≡ next
        (record { event = some (codes "message"); payload = str (codes "{\n}") })
        (next (record { event = none; payload = str (codes ": 1") }) finished)
unfolding running
parse_sse_lines-frame_lines_example =
    parse_sse_lines-frame_lines loads (13 ∷ 10 ∷ []) (first_frame ∷ second_frame ∷ [])
      (refl, (refl, tt)) (IsFrame-first_frame, (IsFrame-second_frame, tt))

abbrev failed_properties : Value
failed_properties = obj (
    field (codes "sessionID") (str (codes "ses_1")) (
      field (codes "error")
        (obj (
          field (codes "name") (str (codes "ApiError"))
            (field (codes "message") (str (codes "token abc")) end)))
        end))

visible_properties-AllFields_example :
    AllFields
      (IsVisibleField (codes "session.error"))
      (visible_properties (codes "session.error") failed_properties)
visible_properties-AllFields_example =
    visible_properties-AllFields (codes "session.error") failed_properties

abbrev tool_event : Fields
tool_event = field (codes "type") (str (codes "message.part.updated")) (
    field (codes "properties")
      (obj (
        field (codes "part")
          (obj (
            field (codes "type") (str (codes "tool"))
              (field (codes "tool") (str (codes "secret")) end)))
          end))
      end)

progress_message-IsMessage_example : IfOk (IfSome IsMessage) (progress_message tool_event)
progress_message-IsMessage_example = progress_message-IsMessage tool_event

abbrev outside : Outside
outside = record {
  seen = λ _. record { token = new_token; is_late = false };
  observed = λ _ _ _. none;
  shown = λ _. codes "None";
}

abbrev connected : Fields
connected = field (codes "type") (str (codes "server.connected")) end

abbrev idle : Fields
idle =
    field (codes "type") (str (codes "session.idle"))
      (field (codes "properties") (obj (field (codes "sessionID") (str (codes "ses_1")) end)) end)

abbrev stream : SseStream
stream =
    next (record { event = none; payload = obj connected })
      (next (record { event = none; payload = obj idle }) finished)

abbrev outcome : EventOutcome
outcome = record {
  kind = codes "idle";
  event = idle;
  counters = (codes "server.connected", 1) ∷ (codes "session.idle", 1) ∷ [];
}

wait_for_session-IsOutcome_example :
    IsOutcome outside (first_outcome (codes "ses_1") stream) outcome
unfolding running
wait_for_session-IsOutcome_example =
    wait_for_session-IsOutcome outside (codes "ses_1") stream {o = outcome}
      {acts = connects
        ∷ reports (codes "OpenCode connection established")
        ∷ reports (codes "OpenCode finished the current execution")
        ∷ logs idle
        ∷ []}
      (λ _ _ _. refl) refl
