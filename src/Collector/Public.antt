-- ===== src/Collector/Public.antt =====
-- What collector.py keeps of a session's messages: nothing private.
use opencode_orchestrator.Prelude.{
  ℕ, suc, ◌≡◌, refl, ◌∙◌, Bool, true, false, ◌||◌, List, [], ◌∷◌, Option, none, some, All, IfSome,
  any, if_ind,
}
use opencode_orchestrator.Prelude.Result.{ok, IfOk, IfOk-ok, IfOk-bind, IfOk-skip}
use opencode_orchestrator.Text.{Text, codes, texts, text_eq, is_one_of, starts_with, is_in}
use opencode_orchestrator.Value.{
  AllItems, Value, null, bool, int, float, str, arr, obj, Items, nil, cons, Fields, end, field, get,
}
use opencode_orchestrator.Collector.{
  or_next, present_field, dict_or_empty, output_field, tool_part, part_type, text_part,
  compact_part, typed_part, normalize_part, push_part, normalize_parts, parts_of, message_value,
  normalize_message, normalize_from, normalize_messages,
}

-- a type that is not private
abbrev pub IsPublicType : Text → Type 0
IsPublicType t =
    (is_one_of t (texts ("reasoning" ∷ "thinking" ∷ "analysis" ∷ []))
      || is_in (codes "reasoning") t)
    ≡ false

-- a part of a public type, which has the output of a tool only where that is included
abbrev pub IsPublicPart : Bool → Value → Type 0
IsPublicPart include (obj fs) =
    (t : Text) × (get (codes "type") fs ≡ some (str t))
    × IsPublicType t
    × (include ≡ false → get (codes "output") fs ≡ none)
IsPublicPart include _ = ⊥

abbrev pub IsPublicMessage : Bool → Value → Type 0
IsPublicMessage include (obj fs) =
    (parts : Items) × (get (codes "parts") fs ≡ some (arr parts))
    × AllItems (IsPublicPart include) parts
IsPublicMessage include _ = ⊥

get-present_field :
    (key other : Text) (o : Option Value) (rest : Fields)
    → text_eq key other ≡ false
    → get other (present_field key o rest) ≡ get other rest
unfolding get
get-present_field key other none rest h = refl
get-present_field key other (some null) rest h = refl
get-present_field key other (some (bool b)) rest h = rw h refl
get-present_field key other (some (int n)) rest h = rw h refl
get-present_field key other (some (float x)) rest h = rw h refl
get-present_field key other (some (str s)) rest h = rw h refl
get-present_field key other (some (arr vs)) rest h = rw h refl
get-present_field key other (some (obj fs)) rest h = rw h refl

-- the name and the status, and then the rest
get-output :
    (t : Text) (name status : Option Value) (rest : Fields)
    → get (codes "output") rest ≡ none
    → get (codes "output") (
        field
          (codes "type")
          (str t)
          (present_field (codes "name") name (present_field (codes "status") status rest)))
      ≡ none
unfolding get text_eq
get-output t name status rest h =
    get-present_field (codes "name") (codes "output") name _ refl
    ∙ get-present_field (codes "status") (codes "output") status rest refl
    ∙ h

output_field-none :
    (include : Bool) (part state : Fields)
    → include ≡ false
    → get (codes "output") (output_field include part state) ≡ none
unfolding output_field get
output_field-none false part state h = refl
output_field-none true part state h = cc

module _ (shown : Value → Text) (include : Bool) where
  text_part-IsPublicPart : (o : Option Value) → IfSome (IsPublicPart include) (text_part shown o)
  unfolding text_part get text_eq is_one_of any is_in starts_with
  text_part-IsPublicPart none = tt
  text_part-IsPublicPart (some null) = tt
  text_part-IsPublicPart (some (bool b)) = (codes "text", refl, refl, λ h. refl)
  text_part-IsPublicPart (some (int n)) = (codes "text", refl, refl, λ h. refl)
  text_part-IsPublicPart (some (float x)) = (codes "text", refl, refl, λ h. refl)
  text_part-IsPublicPart (some (str s)) = (codes "text", refl, refl, λ h. refl)
  text_part-IsPublicPart (some (arr vs)) = (codes "text", refl, refl, λ h. refl)
  text_part-IsPublicPart (some (obj fs)) = (codes "text", refl, refl, λ h. refl)

  tool_part-IsPublicPart : (part : Fields) → IsPublicPart include (tool_part part include)
  unfolding tool_part get text_eq is_one_of any is_in starts_with
  tool_part-IsPublicPart part =
      let state = dict_or_empty (get (codes "state") part) in
      (
        codes "tool",
        refl,
        refl,
        λ h.
            get-output (codes "tool") (or_next (get (codes "tool") part) (get (codes "name") part))
              (or_next (get (codes "status") state) (get (codes "status") part))
              (output_field include part state) (output_field-none include part state h),
      )

  compact_part-IsPublicPart :
      (t : Text) (part : Fields) → IsPublicType t → IsPublicPart include (compact_part shown t part)
  unfolding compact_part get text_eq
  compact_part-IsPublicPart t part public = (
    t,
    refl,
    public,
    λ _. get-output t (get (codes "name") part) (get (codes "status") part) end refl,
  )

  typed_part-IsPublicPart :
      (t : Text) (part : Fields) → IfSome (IsPublicPart include) (typed_part shown t part include)
  unfolding typed_part
  typed_part-IsPublicPart t part =
      let P = IfSome (IsPublicPart include) in
      if_ind P
        (is_one_of t (texts ("reasoning" ∷ "thinking" ∷ "analysis" ∷ []))
          || is_in (codes "reasoning") t)
        _ _ (λ _. tt)
        (λ public.
          if_ind P (text_eq t (codes "text")) _ _
            (λ _. text_part-IsPublicPart (get (codes "text") part))
            (λ _.
              if_ind P (starts_with (codes "tool") t || text_eq t (codes "tool")) _ _
                (λ _. tool_part-IsPublicPart part) (λ _. compact_part-IsPublicPart t part public)))

  normalize_part-IsPublicPart :
      (v : Value) → IfSome (IsPublicPart include) (normalize_part shown v include)
  unfolding normalize_part
  normalize_part-IsPublicPart (obj part) =
      typed_part-IsPublicPart (part_type shown (get (codes "type") part)) part
  normalize_part-IsPublicPart null = tt
  normalize_part-IsPublicPart _ = tt

  AllItems-push_part :
      (o : Option Value) (vs : Items)
      → IfSome (IsPublicPart include) o
      → AllItems (IsPublicPart include) vs
      → AllItems (IsPublicPart include) (push_part shown o vs)
  AllItems-push_part none vs h k = k
  AllItems-push_part (some v) vs h k = (h, k)

  normalize_parts-AllItems :
      (vs : Items) → AllItems (IsPublicPart include) (normalize_parts shown vs include)
  unfolding normalize_parts
  normalize_parts-AllItems nil = tt
  normalize_parts-AllItems (cons v vs) =
      AllItems-push_part (normalize_part shown v include) (normalize_parts shown vs include)
        (normalize_part-IsPublicPart v) (normalize_parts-AllItems vs)

  normalize_message-IsPublicMessage :
      (i : ℕ) (v : Value) → IfOk (IsPublicMessage include) (normalize_message shown i v include)
  unfolding normalize_message message_value get text_eq
  normalize_message-IsPublicMessage i (obj message) =
      IfOk-skip (IsPublicMessage include) (parts_of shown (get (codes "parts") message)) _
        λ parts. (normalize_parts shown parts include, refl, normalize_parts-AllItems parts)
  normalize_message-IsPublicMessage i null = tt
  normalize_message-IsPublicMessage i _ = tt

  normalize_from-All :
      (i : ℕ) (messages : List Value)
      → IfOk (All (IsPublicMessage include)) (normalize_from shown i messages include)
  unfolding normalize_from
  normalize_from-All i [] = tt
  normalize_from-All i (v ∷ vs) =
      IfOk-bind (IsPublicMessage include) (All (IsPublicMessage include))
        (normalize_message shown i v include) _ (normalize_message-IsPublicMessage i v)
        λ first is_public.
          IfOk-bind (All (IsPublicMessage include)) (All (IsPublicMessage include))
            (normalize_from shown (suc i) vs include) _ (normalize_from-All (suc i) vs)
            λ rest are_public. (is_public, are_public)

-- What is kept of a session's messages is public: where they can be normalized, each of the results has
-- parts whose types are texts that are none of the private ones and do not contain `reasoning`; and
-- if the output of tools is not asked for, no part has an output.
pub normalize_messages-All :
    (shown : Value → Text) (messages : List Value) (include_tool_output : Bool)
    {normalized : List Value}
    → normalize_messages shown messages include_tool_output ≡ ok normalized
    → All (IsPublicMessage include_tool_output) normalized
unfolding normalize_messages
normalize_messages-All shown messages include_tool_output =
    IfOk-ok (All (IsPublicMessage include_tool_output))
      (normalize_messages shown messages include_tool_output)
      (normalize_from-All shown include_tool_output 0 messages)
