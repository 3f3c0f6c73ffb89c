-- ===== src/Pending/Asked.antt =====
-- Question requests of pending_input.py: their events are read back whole.
use opencode_orchestrator.Prelude.{◌≡◌, refl, sym, subst, List, Option, none, some}
use opencode_orchestrator.Prelude.Result.{ok, IfOk, IfOk-ok, IfOk-bind, IfOk-trivial}
use opencode_orchestrator.Text.{Text, codes, text_eq}
use opencode_orchestrator.Text.Laws.{text_eq_refl}
use opencode_orchestrator.Value.{Value, null, arr, obj, Items, nil, cons, get}
use opencode_orchestrator.Pending.{session_id_of, raw_object}
use opencode_orchestrator.Pending.Permissions.{
  IsTrimmed, IsSession, nonblank_string-IsTrimmed, session_id_of-IsSession,
}
use opencode_orchestrator.Pending.Questions.{
  QuestionOption, Question, QuestionRequest, option_label, option_description, normalize_option,
  normalize_options, question_options, normalize_question, normalize_questions, question_list,
  normalize_question_request, option_value, option_values, question_value, question_values,
  question_properties,
}

abbrev OptionRead : QuestionOption → Type 0
OptionRead o = normalize_option (option_value o) ≡ ok o

normalize-option_value : (o : QuestionOption) → IsTrimmed o.label → OptionRead o
unfolding normalize_option option_label option_description get text_eq
normalize-option_value o h = go o.description
  where
    go :
        (d : Option Text)
        → normalize_option (option_value (record { label = o.label; description = d }))
          ≡ ok (record { label = o.label; description = d })
    go none = rw h refl
    go (some d) = rw h refl

option_label-IsTrimmed : (o : Option Value) → IfOk IsTrimmed (option_label o)
unfolding option_label
option_label-IsTrimmed none = tt
option_label-IsTrimmed (some v) = nonblank_string-IsTrimmed (some v)

normalize_option-OptionRead : (v : Value) → IfOk OptionRead (normalize_option v)
unfolding normalize_option
normalize_option-OptionRead (obj option) =
    IfOk-bind IsTrimmed OptionRead _ _ (option_label-IsTrimmed (get (codes "label") option))
      λ label trimmed.
        IfOk-bind (λ _. Unit {0}) OptionRead _ _
          (IfOk-trivial (option_description (get (codes "description") option)))
          λ description _.
            normalize-option_value (record { label = label; description = description }) trimmed
normalize_option-OptionRead null = tt
normalize_option-OptionRead _ = tt

abbrev OptionsRead : List QuestionOption → Type 0
OptionsRead os = normalize_options (option_values os) ≡ ok os

normalize_options-OptionsRead : (vs : Items) → IfOk OptionsRead (normalize_options vs)
unfolding normalize_options
normalize_options-OptionsRead nil = refl
normalize_options-OptionsRead (cons v vs) =
    IfOk-bind OptionRead OptionsRead _ _ (normalize_option-OptionRead v) λ option a.
      IfOk-bind OptionsRead OptionsRead _ _ (normalize_options-OptionsRead vs)
        λ options b. rw (a, b) refl

abbrev QuestionRead : Question → Type 0
QuestionRead q = normalize_question (question_value q) ≡ ok q

abbrev ChoicesRead : Option (List QuestionOption) → Type 0
ChoicesRead none = Unit
ChoicesRead (some os) = OptionsRead os

question_options-ChoicesRead : (o : Option Value) → IfOk ChoicesRead (question_options o)
unfolding question_options
question_options-ChoicesRead none = tt
question_options-ChoicesRead (some (arr vs)) =
    IfOk-bind OptionsRead ChoicesRead _ _ (normalize_options-OptionsRead vs) λ options a. a
question_options-ChoicesRead (some null) = tt
question_options-ChoicesRead (some _) = tt

normalize-question_value :
    (header question : Text) (options : Option (List QuestionOption))
    → IsTrimmed header
    → IsTrimmed question
    → ChoicesRead options
    → QuestionRead (record { header = header; question = question; options = options })
unfolding normalize_question question_options get text_eq
normalize-question_value header question none a b c = rw (a, b) refl
normalize-question_value header question (some os) a b c = rw (a, b, c) refl

normalize_question-QuestionRead : (v : Value) → IfOk QuestionRead (normalize_question v)
unfolding normalize_question
normalize_question-QuestionRead (obj item) =
    IfOk-bind IsTrimmed QuestionRead _ _ (nonblank_string-IsTrimmed (get (codes "header") item))
      λ header a.
        IfOk-bind IsTrimmed QuestionRead _ _
          (nonblank_string-IsTrimmed (get (codes "question") item))
          λ question b.
            IfOk-bind ChoicesRead QuestionRead _ _
              (question_options-ChoicesRead (get (codes "options") item))
              λ options c. normalize-question_value header question options a b c
normalize_question-QuestionRead null = tt
normalize_question-QuestionRead _ = tt

abbrev QuestionsRead : List Question → Type 0
QuestionsRead qs = normalize_questions (question_values qs) ≡ ok qs

normalize_questions-QuestionsRead : (vs : Items) → IfOk QuestionsRead (normalize_questions vs)
unfolding normalize_questions
normalize_questions-QuestionsRead nil = refl
normalize_questions-QuestionsRead (cons v vs) =
    IfOk-bind QuestionRead QuestionsRead _ _ (normalize_question-QuestionRead v) λ question a.
      IfOk-bind QuestionsRead QuestionsRead _ _ (normalize_questions-QuestionsRead vs)
        λ questions b. rw (a, b) refl

abbrev ListRead : List Question → Type 0
ListRead qs = question_list (some (arr (question_values qs))) ≡ ok qs

question_list-ListRead : (o : Option Value) → IfOk ListRead (question_list o)
unfolding question_list normalize_questions
question_list-ListRead (some (arr (cons v vs))) =
    IfOk-bind QuestionRead ListRead _ _ (normalize_question-QuestionRead v) λ question a.
      IfOk-bind QuestionsRead ListRead _ _ (normalize_questions-QuestionsRead vs)
        λ questions b. rw (a, b) refl
question_list-ListRead (some (arr nil)) = tt
question_list-ListRead (some null) = tt
question_list-ListRead (some _) = tt
question_list-ListRead none = tt

abbrev IsRead : Text → QuestionRequest → Type 0
IsRead session_id r =
    IsTrimmed r.request_id × IsSession session_id r.session_id × ListRead r.questions

normalize_question_request-IsRead :
    (raw : Value) (session_id : Text)
    → IfOk (IsRead session_id) (normalize_question_request raw session_id)
unfolding normalize_question_request
normalize_question_request-IsRead raw session_id =
    IfOk-bind (λ _. Unit {0}) (IsRead session_id) _ _ (IfOk-trivial (raw_object raw))
      λ value _.
        IfOk-bind IsTrimmed (IsRead session_id) _ _
          (nonblank_string-IsTrimmed (get (codes "id") value))
          λ request_id a.
            IfOk-bind (IsSession session_id) (IsRead session_id) _ _
              (session_id_of-IsSession value session_id)
              λ actual b.
                IfOk-bind ListRead (IsRead session_id) _ _
                  (question_list-ListRead (get (codes "questions") value)) λ questions c. (a, b, c)

normalize-question_properties :
    (r : QuestionRequest)
    → IsRead r.session_id r
    → normalize_question_request (question_properties r) r.session_id ≡ ok r
unfolding normalize_question_request question_properties raw_object session_id_of get text_eq
normalize-question_properties r (a, b, c) = rw (a, b.1, c, text_eq_refl r.session_id) refl

-- The event of a question request loses nothing of it: whatever OpenCode sent, if it normalizes for a
-- session, the properties of the event that is published normalize for that session, to the same
-- request, with all questions and choices.
pub normalize_question_request-question_properties :
    (raw : Value) (session_id : Text) {r : QuestionRequest}
    → normalize_question_request raw session_id ≡ ok r
    → normalize_question_request (question_properties r) session_id ≡ ok r
normalize_question_request-question_properties raw session_id {r} e =
    let (a, b, c) : IsRead session_id r =
      IfOk-ok (IsRead session_id) (normalize_question_request raw session_id)
        (normalize_question_request-IsRead raw session_id) e in
    let own : IsSession r.session_id r.session_id = (refl, subst IsTrimmed (sym b.0) b.1) in
    subst (λ t. normalize_question_request (question_properties r) t ≡ ok r) b.0
      (normalize-question_properties r (a, own, c))
