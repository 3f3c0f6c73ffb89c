-- ===== src/Collector/Examples.antt =====
-- A run of collector.py: a message with a private part and a tool.
use opencode_orchestrator.Prelude.{refl, false, [], ◌∷◌, All}
use opencode_orchestrator.Text.{Text, codes}
use opencode_orchestrator.Value.{Value, pos, null, int, str, arr, obj, nil, cons, end, field}
use opencode_orchestrator.Stream.Run.{running as stream_running}
use opencode_orchestrator.Collector.{
  dict_or_empty, output_field, tool_part, text_of, part_type, text_part, compact_part, typed_part,
  normalize_part, normalize_parts, parts_of, created_at, role_of, message_value, normalize_message,
  normalize_from, normalize_messages,
}
use opencode_orchestrator.Collector.Public.{IsPublicMessage, normalize_messages-All}

abbrev shown : Value → Text
shown _ = codes "None"

abbrev typed : Text → Value
typed t = obj (field (codes "type") (str t) (field (codes "text") (str (codes "a")) end))

abbrev message : Value
message = obj (
    field (codes "parts")
      (arr (
        cons (typed (codes "reasoning"))
          (cons (typed (codes "text")) (cons (typed (codes "tool")) nil))))
      end)

abbrev kept : Value
kept = obj (
    field (codes "index") (int (pos 0)) (
      field (codes "role") (str (codes "unknown")) (
        field (codes "created_at") null (
          field (codes "parts")
            (arr (
              cons (typed (codes "text"))
                (cons (obj (field (codes "type") (str (codes "tool")) end)) nil)))
            end))))

normalize_messages-All_example : All (IsPublicMessage false) (kept ∷ [])
unfolding stream_running dict_or_empty output_field tool_part text_of part_type text_part
    compact_part typed_part normalize_part normalize_parts parts_of created_at role_of message_value
    normalize_message normalize_from normalize_messages
normalize_messages-All_example =
    normalize_messages-All shown (message ∷ []) false {normalized = kept ∷ []} refl
