-- ===== src/Stream/Bounded.antt =====
-- The messages that `progress_message` of event_stream.py can give.
use opencode_orchestrator.Prelude.{
  arith, ◌≡◌, refl, Bool, true, false, ◌||◌, List, [], ◌∷◌, ◌++◌, Option, none, some, ◌⊎◌, inl, inr,
  if◌then◌else◌, if_ind, IfSome, any,
}
use opencode_orchestrator.Prelude.Result.{Result, ok, err, IfOk, IfOk-bind, IfOk-trivial}
use opencode_orchestrator.Text.{Text, codes, texts, text_eq, is_one_of, starts_with}
use opencode_orchestrator.Value.{Value, null, obj, Fields, get}
use opencode_orchestrator.Stream.Sanitize.{StreamError, type_text}
use opencode_orchestrator.Stream.Messages.{
  visible_progress_tool_names, visible_name, either_name, tool_name, tool_status, status_message,
  tool_message, is_tool, part_message, updated_message, late_message, some_message, typed_message,
  progress_message,
}

abbrev pub fixed_messages : List Text
fixed_messages = texts (
    "OpenCode connection established" ∷ "OpenCode is analyzing or editing"
    ∷ "OpenCode updated the worktree" ∷ "OpenCode is waiting for permission"
    ∷ "OpenCode is waiting for an answer" ∷ "OpenCode finished the current execution"
    ∷ "OpenCode execution failed" ∷ [])

-- the name of a tool that may be shown, or `a tool`
abbrev pub IsShownName : Text → Type 0
IsShownName name = is_one_of name (codes "a tool" ∷ visible_progress_tool_names) ≡ true

-- one of the fixed messages, or one of three phrases with the name of a tool
abbrev pub IsMessage : Text → Type 0
IsMessage m =
    (is_one_of m fixed_messages ≡ true)
    ⊎ ((name : Text) × IsShownName name
        × ((m ≡ codes "OpenCode is running " ++ name)
            ⊎ ((m ≡ codes "OpenCode completed " ++ name)
                ⊎ (m ≡ codes "OpenCode reported a failure in " ++ name))))

||-intro : (a b : Bool) → b ≡ true → (a || b) ≡ true
||-intro a b h = ground arith

visible_name-IsShownName : (o : Option Text) → IsShownName (visible_name o)
unfolding is_one_of any text_eq
visible_name-IsShownName none = refl
visible_name-IsShownName (some s) =
    if_ind IsShownName (is_one_of s visible_progress_tool_names) _ _ (λ h. ||-intro _ _ h)
      (λ _. refl)

tool_name-IsShownName : (part : Fields) → IfOk IsShownName (tool_name part)
unfolding tool_name
tool_name-IsShownName part =
    let name = type_text (either_name (get (codes "tool") part) (get (codes "name") part)) in
    IfOk-bind (λ _. Unit {0}) IsShownName name _ (IfOk-trivial name)
      (λ o _. visible_name-IsShownName o)

status_message-IsMessage :
    (status : Option Text) (name : Text) → IsShownName name → IsMessage (status_message status name)
unfolding status_message
status_message-IsMessage none name h = inr (name, h, inl refl)
status_message-IsMessage (some s) name h =
    if_ind IsMessage (is_one_of s (texts ("completed" ∷ "done" ∷ "success" ∷ []))) _ _
      (λ _. inr (name, h, inr (inl refl)))
      (λ _.
        if_ind IsMessage (is_one_of s (texts ("error" ∷ "failed" ∷ []))) _ _
          (λ _. inr (name, h, inr (inr refl))) (λ _. inr (name, h, inl refl)))

tool_message-IsMessage : (part : Fields) → IfOk IsMessage (tool_message part)
unfolding tool_message
tool_message-IsMessage part =
    IfOk-bind IsShownName IsMessage (tool_name part) _ (tool_name-IsShownName part) λ name h.
      IfOk-bind (λ _. Unit {0}) IsMessage (tool_status (get (codes "state") part)) _
        (IfOk-trivial (tool_status (get (codes "state") part)))
        λ status _. status_message-IsMessage status name h

part_message-IsMessage : (o : Option Value) → IfOk IsMessage (part_message o)
unfolding part_message is_one_of any text_eq
part_message-IsMessage (some (obj part)) =
    if_ind (IfOk IsMessage) (is_tool (get (codes "type") part)) _ _
      (λ _. tool_message-IsMessage part) (λ _. inl refl)
part_message-IsMessage none = inl refl
part_message-IsMessage (some null) = inl refl
part_message-IsMessage (some _) = inl refl

updated_message-IsMessage : (o : Option Value) → IfOk IsMessage (updated_message o)
unfolding updated_message is_one_of any text_eq
updated_message-IsMessage (some (obj properties)) =
    part_message-IsMessage (get (codes "part") properties)
updated_message-IsMessage none = inl refl
updated_message-IsMessage (some null) = inl refl
updated_message-IsMessage (some _) = inl refl

-- one test of `progress_message`, and the rest of them
one-IsMessage :
    (test : Bool) (m : Text) (rest : Option Text)
    → is_one_of m fixed_messages ≡ true
    → IfSome IsMessage rest
    → IfSome IsMessage (if test then some m else rest)
one-IsMessage true m rest h k = inl h
one-IsMessage false m rest h k = k

late_message-IsMessage : (t : Text) → IfSome IsMessage (late_message t)
unfolding late_message is_one_of any text_eq
late_message-IsMessage t =
    one-IsMessage (text_eq t (codes "session.diff") || starts_with (codes "file.") t)
      (codes "OpenCode updated the worktree") _ refl
      (one-IsMessage (is_one_of t (texts ("permission.asked" ∷ "permission.v2.asked" ∷ [])))
        (codes "OpenCode is waiting for permission") _ refl
        (one-IsMessage (is_one_of t (texts ("question.asked" ∷ "question.v2.asked" ∷ [])))
          (codes "OpenCode is waiting for an answer") _ refl
          (one-IsMessage (text_eq t (codes "session.idle"))
            (codes "OpenCode finished the current execution") _ refl
            (one-IsMessage (text_eq t (codes "session.error")) (codes "OpenCode execution failed")
              none refl tt))))

some_message-IsMessage :
    (r : Result StreamError Text) → IfOk IsMessage r → IfOk (IfSome IsMessage) (some_message r)
some_message-IsMessage (ok m) h = h
some_message-IsMessage (err e) h = tt

typed_message-IsMessage :
    (event : Fields) (o : Option Text) → IfOk (IfSome IsMessage) (typed_message event o)
unfolding typed_message is_one_of any text_eq
typed_message-IsMessage event none = tt
typed_message-IsMessage event (some t) =
    let P = IfOk (IfSome IsMessage) in
    if_ind P
      (is_one_of t (texts ("server.heartbeat" ∷ "catalog.updated" ∷ "reference.updated" ∷ []))) _ _
      (λ _. tt)
      (λ _.
        if_ind P (text_eq t (codes "server.connected")) _ _ (λ _. inl refl)
          (λ _.
            if_ind P (is_one_of t (texts ("message.part.delta" ∷ "message.updated" ∷ []))) _ _
              (λ _. inl refl)
              (λ _.
                if_ind P (text_eq t (codes "message.part.updated")) _ _
                  (λ _.
                    some_message-IsMessage _
                      (updated_message-IsMessage (get (codes "properties") event)))
                  (λ _. late_message-IsMessage t))))

-- A progress message copies nothing of an event but, at most, the name of a known tool: it is one of
-- seven fixed messages, or one of three phrases followed by one of the twelve known names or `a tool`.
pub progress_message-IsMessage : (event : Fields) → IfOk (IfSome IsMessage) (progress_message event)
unfolding progress_message
progress_message-IsMessage event =
    IfOk-bind (λ _. Unit {0}) (IfSome IsMessage) (type_text (get (codes "type") event)) _
      (IfOk-trivial (type_text (get (codes "type") event))) (λ o _. typed_message-IsMessage event o)
