-- ===== src/Pending/Questions.antt =====
-- Questions in pending_input.py: `_question_list`, `normalize_question_request` and `question_event`.
use opencode_orchestrator.Prelude.{List, [], ◌∷◌, Option, none, some}
use opencode_orchestrator.Prelude.Result.{Result, ok, err, ◌>>=◌}
use opencode_orchestrator.Text.{Text, codes}
use opencode_orchestrator.Value.{Value, str, arr, obj, Items, nil, cons, Fields, end, field, get}
use opencode_orchestrator.Pending.{
  PendingInputError, bad_questions, bad_question, bad_options, bad_option, missing_label,
  bad_description, nonblank_string, session_id_of, raw_object, event_value,
}

pub record QuestionOption : Type 0 where
  pub label : Text
  pub description : Option Text

pub record Question : Type 0 where
  pub header : Text
  pub question : Text
  pub options : Option (List QuestionOption)

pub record QuestionRequest : Type 0 where
  pub request_id : Text
  pub session_id : Text
  pub questions : List Question

unfoldable pub option_label : Option Value → Result PendingInputError Text
option_label none = err missing_label
option_label (some v) = nonblank_string (some v)

unfoldable pub option_description : Option Value → Result PendingInputError (Option Text)
option_description none = ok none
option_description (some (str description)) = ok (some description)
option_description (some _) = err bad_description

unfoldable pub normalize_option : Value → Result PendingInputError QuestionOption
normalize_option (obj option) = do
  label ← option_label (get (codes "label") option)
  description ← option_description (get (codes "description") option)
  ok (record { label = label; description = description })
normalize_option _ = err bad_option

unfoldable pub normalize_options : Items → Result PendingInputError (List QuestionOption)
normalize_options nil = ok []
normalize_options (cons v vs) = do
  option ← normalize_option v
  options ← normalize_options vs
  ok (option ∷ options)

unfoldable pub question_options :
    Option Value → Result PendingInputError (Option (List QuestionOption))
question_options none = ok none
question_options (some (arr vs)) = do options ← normalize_options vs; ok (some options)
question_options (some _) = err bad_options

unfoldable pub normalize_question : Value → Result PendingInputError Question
normalize_question (obj item) = do
  header ← nonblank_string (get (codes "header") item)
  question ← nonblank_string (get (codes "question") item)
  options ← question_options (get (codes "options") item)
  ok (record { header = header; question = question; options = options })
normalize_question _ = err bad_question

unfoldable pub normalize_questions : Items → Result PendingInputError (List Question)
normalize_questions nil = ok []
normalize_questions (cons v vs) = do
  question ← normalize_question v
  questions ← normalize_questions vs
  ok (question ∷ questions)

-- `_question_list`: an array that is not empty
unfoldable pub question_list : Option Value → Result PendingInputError (List Question)
question_list (some (arr (cons v vs))) = normalize_questions (cons v vs)
question_list _ = err bad_questions

unfoldable pub normalize_question_request : Value → Text → Result PendingInputError QuestionRequest
normalize_question_request raw session_id = do
  value ← raw_object raw
  request_id ← nonblank_string (get (codes "id") value)
  actual ← session_id_of value session_id
  questions ← question_list (get (codes "questions") value)
  ok (record { request_id = request_id; session_id = actual; questions = questions })

abbrev description_field : Option Text → Fields
description_field none = end
description_field (some s) = field (codes "description") (str s) end

abbrev pub option_value : QuestionOption → Value
option_value o = obj (field (codes "label") (str o.label) (description_field o.description))

abbrev pub option_values : List QuestionOption → Items
option_values [] = nil
option_values (o ∷ os) = cons (option_value o) (option_values os)

abbrev options_field : Option (List QuestionOption) → Fields
options_field none = end
options_field (some os) = field (codes "options") (arr (option_values os)) end

abbrev pub question_value : Question → Value
question_value q = obj (
    field (codes "header") (str q.header)
      (field (codes "question") (str q.question) (options_field q.options)))

abbrev pub question_values : List Question → Items
question_values [] = nil
question_values (q ∷ qs) = cons (question_value q) (question_values qs)

unfoldable pub question_properties : QuestionRequest → Value
question_properties r = obj (
    field (codes "id") (str r.request_id) (
      field (codes "sessionID") (str r.session_id)
        (field (codes "questions") (arr (question_values r.questions)) end)))

unfoldable pub question_event : QuestionRequest → Value
question_event r = event_value (codes "question.reconciled") (question_properties r)
