-- ===== src/Stream/Shape.antt =====
-- The shape of what event_stream.py shows of an event: the keys that each part may have, and the values
-- that they may have there; and that texts, lists, choices and questions come out in it.
use opencode_orchestrator.Prelude.{
  ◌≡◌, refl, sym, subst, true, ◌&&◌, List, [], ◌∷◌, Option, none, some, arith, leb, length, all,
  any, IfSome, if◌then◌else◌, if_ind,
}
use opencode_orchestrator.Text.{Text, codes, texts, text_eq, is_one_of, starts_with}
use opencode_orchestrator.Text.Laws.{text_eq-eq}
use opencode_orchestrator.Value.{
  AllItems, Value, pos, null, bool, int, float, str, arr, obj, Items, nil, cons, Fields, end, field,
  get, put,
}
use opencode_orchestrator.Stream.Sanitize.{
  safe_string, is_token_char, is_path_char, safe_error_token, safe_error_path, all_text,
  safe_string_list, put_text, option_with, safe_option, push_item, safe_options, question_with,
  safe_question, safe_questions_of, safe_questions,
}

-- every field satisfies `P`
abbrev pub AllFields : (Text → Value → Type 0) → Fields → Type 0
AllFields P end = Unit
AllFields P (field k v fs) = P k v × AllFields P fs

pub AllFields-put :
    (P : Text → Value → Type 0) (key : Text) (v : Value) (fs : Fields)
    → P key v
    → AllFields P fs
    → AllFields P (put key v fs)
unfolding put
AllFields-put P key v end h k = (h, tt)
AllFields-put P key v (field j w fs) h k =
    if_ind (AllFields P) (text_eq j key) _ _
      (λ same. (subst (λ t. P t v) (sym (text_eq-eq j key same)) h, k.1))
      (λ _. (k.0, AllFields-put P key v fs h k.1))

pub AllFields-put_text :
    (P : Text → Value → Type 0) (key : Text) (o : Option Text) (fs : Fields)
    → ((s : Text) → o ≡ some s → P key (str s))
    → AllFields P fs
    → AllFields P (put_text key o fs)
AllFields-put_text P key none fs h k = k
AllFields-put_text P key (some s) fs h k = AllFields-put P key (str s) fs (h s refl) k

-- a text
abbrev pub IsText : Value → Type 0
IsText (str s) = Unit
IsText _ = ⊥

abbrev pub Named : List Text → (Value → Type 0) → Text → Value → Type 0
Named names P key v = (is_one_of key names ≡ true) × P v

-- a choice, and a question: texts under fixed names
abbrev pub IsVisibleOption : Value → Type 0
IsVisibleOption (obj fs) = AllFields (Named (texts ("label" ∷ "description" ∷ [])) IsText) fs
IsVisibleOption _ = ⊥

abbrev pub AreOptions : Value → Type 0
AreOptions (arr vs) = AllItems IsVisibleOption vs
AreOptions _ = ⊥

abbrev pub IsQuestionField : Text → Value → Type 0
IsQuestionField key v =
    if text_eq key (codes "options")
    then AreOptions v
    else Named (texts ("header" ∷ "question" ∷ [])) IsText key v

abbrev pub IsVisibleQuestion : Value → Type 0
IsVisibleQuestion (obj fs) = AllFields IsQuestionField fs
IsVisibleQuestion _ = ⊥

-- a token and a path: bounded, and of harmless characters
abbrev pub IsToken : Text → Type 0
IsToken s = (leb 1 (length s) && leb (length s) 128 && all is_token_char s) ≡ true

abbrev pub IsErrorPath : Text → Type 0
IsErrorPath s = (starts_with (codes "/") s && leb (length s) 256 && all is_path_char s) ≡ true

-- a field of an error: its message is fixed
abbrev pub IsErrorField : Text → Value → Type 0
IsErrorField key (str s) =
    if text_eq key (codes "message")
    then s ≡ codes "OpenCode session failed"
    else if text_eq key (codes "path")
    then IsErrorPath s
    else Named (texts ("name" ∷ "code" ∷ [])) (λ _. IsToken s) key (str s)
IsErrorField key (int (pos n)) = (text_eq key (codes "status") && leb 100 n && leb n 599) ≡ true
IsErrorField key _ = ⊥

-- a field of the visible properties of an event of a type
abbrev pub IsVisibleField : Text → Text → Value → Type 0
IsVisibleField event_type key (str s) =
    is_one_of key (texts ("id" ∷ "sessionID" ∷ "action" ∷ "permission" ∷ [])) ≡ true
IsVisibleField event_type key (bool b) =
    (text_eq key (codes "always")
      && is_one_of event_type (texts ("permission.asked" ∷ "permission.v2.asked" ∷ [])))
    ≡ true
IsVisibleField event_type key (arr vs) =
    if is_one_of event_type (texts ("permission.asked" ∷ "permission.v2.asked" ∷ []))
    then (text_eq key (codes "resources") ≡ true) × AllItems IsText vs
    else ((text_eq key (codes "questions")
          && is_one_of event_type (texts ("question.asked" ∷ "question.v2.asked" ∷ [])))
        ≡ true)
      × AllItems IsVisibleQuestion vs
IsVisibleField event_type key (obj fs) =
    ((text_eq key (codes "error") && text_eq event_type (codes "session.error")) ≡ true)
    × AllFields IsErrorField fs
IsVisibleField event_type key _ = ⊥

pub option_with-IsVisibleOption :
    (label description : Option Text) → IfSome IsVisibleOption (option_with label description)
unfolding option_with put text_eq is_one_of any
option_with-IsVisibleOption none description = tt
option_with-IsVisibleOption (some label) none = ((refl, tt), tt)
option_with-IsVisibleOption (some label) (some s) = ((refl, tt), ((refl, tt), tt))

pub safe_option-IsVisibleOption : (v : Value) → IfSome IsVisibleOption (safe_option v)
unfolding safe_option
safe_option-IsVisibleOption (obj fs) =
    option_with-IsVisibleOption (safe_string (get (codes "label") fs))
      (safe_string (get (codes "description") fs))
safe_option-IsVisibleOption null = tt
safe_option-IsVisibleOption _ = tt

pub AllItems-push :
    (P : Value → Type 0) (o : Option Value) (vs : Items)
    → IfSome P o
    → AllItems P vs
    → AllItems P (push_item o vs)
AllItems-push P none vs h k = k
AllItems-push P (some v) vs h k = (h, k)

pub safe_options-AllItems : (vs : Items) → AllItems IsVisibleOption (safe_options vs)
unfolding safe_options
safe_options-AllItems nil = tt
safe_options-AllItems (cons v vs) =
    AllItems-push IsVisibleOption (safe_option v) (safe_options vs) (safe_option-IsVisibleOption v)
      (safe_options-AllItems vs)

pub question_with-IsVisibleQuestion :
    (header question : Option Text) (options : Option Value)
    → IfSome IsVisibleQuestion (question_with header question options)
unfolding question_with text_eq is_one_of any put
question_with-IsVisibleQuestion none question options = tt
question_with-IsVisibleQuestion (some h) none options = tt
question_with-IsVisibleQuestion (some h) (some q) (some (arr vs)) =
    ((refl, tt), ((refl, tt), (safe_options-AllItems vs, tt)))
question_with-IsVisibleQuestion (some h) (some q) none = ((refl, tt), ((refl, tt), tt))
question_with-IsVisibleQuestion (some h) (some q) (some _) = ((refl, tt), ((refl, tt), tt))

pub safe_question-IsVisibleQuestion : (v : Value) → IfSome IsVisibleQuestion (safe_question v)
unfolding safe_question
safe_question-IsVisibleQuestion (obj fs) =
    question_with-IsVisibleQuestion (safe_string (get (codes "header") fs))
      (safe_string (get (codes "question") fs)) (get (codes "options") fs)
safe_question-IsVisibleQuestion null = tt
safe_question-IsVisibleQuestion _ = tt

pub safe_questions_of-AllItems : (vs : Items) → AllItems IsVisibleQuestion (safe_questions_of vs)
unfolding safe_questions_of
safe_questions_of-AllItems nil = tt
safe_questions_of-AllItems (cons v vs) =
    AllItems-push IsVisibleQuestion (safe_question v) (safe_questions_of vs)
      (safe_question-IsVisibleQuestion v) (safe_questions_of-AllItems vs)

pub safe_questions-AllItems : (o : Option Value) → AllItems IsVisibleQuestion (safe_questions o)
unfolding safe_questions
safe_questions-AllItems none = tt
safe_questions-AllItems (some (arr vs)) = safe_questions_of-AllItems vs
safe_questions-AllItems (some _) = tt

pub all_text-AllItems : (vs : Items) → all_text vs ≡ true → AllItems IsText vs
unfolding all_text
all_text-AllItems nil h = tt
all_text-AllItems (cons (str s) vs) h = (tt, all_text-AllItems vs h)
all_text-AllItems (cons null vs) h = cc
all_text-AllItems (cons (bool b) vs) h = cc
all_text-AllItems (cons (int n) vs) h = cc
all_text-AllItems (cons (float x) vs) h = cc
all_text-AllItems (cons (arr ws) vs) h = cc
all_text-AllItems (cons (obj fs) vs) h = cc

pub safe_string_list-AllItems : (o : Option Value) → IfSome (AllItems IsText) (safe_string_list o)
unfolding safe_string_list
safe_string_list-AllItems none = tt
safe_string_list-AllItems (some (arr vs)) =
    if_ind (IfSome (AllItems IsText)) (all_text vs) _ _ (all_text-AllItems vs) (λ _. tt)
safe_string_list-AllItems (some null) = tt
safe_string_list-AllItems (some _) = tt

pub safe_error_token-IsToken : (o : Option Value) → IfSome IsToken (safe_error_token o)
unfolding safe_error_token
safe_error_token-IsToken none = tt
safe_error_token-IsToken (some (str s)) =
    if_ind (IfSome IsToken) ((leb 1 (length s) && leb (length s) 128) && all is_token_char s) _ _
      (λ h. ground arith) (λ _. tt)
safe_error_token-IsToken (some null) = tt
safe_error_token-IsToken (some _) = tt

pub safe_error_path-IsErrorPath : (o : Option Value) → IfSome IsErrorPath (safe_error_path o)
unfolding safe_error_path
safe_error_path-IsErrorPath none = tt
safe_error_path-IsErrorPath (some (str s)) =
    if_ind (IfSome IsErrorPath)
      (starts_with (codes "/") s && leb (length s) 256 && all is_path_char s) _ _ (λ h. h) (λ _. tt)
safe_error_path-IsErrorPath (some null) = tt
safe_error_path-IsErrorPath (some _) = tt
