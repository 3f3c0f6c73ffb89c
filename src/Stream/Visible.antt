-- ===== src/Stream/Visible.antt =====
-- `_sanitized_event` of event_stream.py shows an event's properties in a fixed shape.
use opencode_orchestrator.Prelude.{
  ◌≡◌, refl, true, ◌&&◌, [], ◌∷◌, Option, none, some, leb, any, IfSome, IfSome-some, if_ind,
}
use opencode_orchestrator.Text.{Text, codes, texts, text_eq, is_one_of}
use opencode_orchestrator.Value.{
  AllItems, Value, pos, negsuc, null, bool, int, float, str, arr, obj, Items, Fields, end, get,
}
use opencode_orchestrator.Stream.Sanitize.{
  safe_string, safe_error_token, safe_error_path, put_status, visible_error, visible_ids, or_value,
  put_resources, put_always, visible_body, put_error, visible_properties,
}
use opencode_orchestrator.Stream.Shape.{
  AllFields, AllFields-put, AllFields-put_text, IsText, IsToken, IsErrorPath, IsErrorField,
  IsVisibleField, safe_questions-AllItems, safe_string_list-AllItems, safe_error_token-IsToken,
  safe_error_path-IsErrorPath,
}

AllFields-put_status :
    (o : Option Value) (fs : Fields)
    → AllFields IsErrorField fs
    → AllFields IsErrorField (put_status o fs)
unfolding text_eq
AllFields-put_status (some (int (pos n))) fs h =
    if_ind (AllFields IsErrorField) (leb 100 n && leb n 599) _ _
      (λ k. AllFields-put IsErrorField (codes "status") (int (pos n)) fs k h) (λ _. h)
AllFields-put_status none fs h = h
AllFields-put_status (some null) fs h = h
AllFields-put_status (some (bool b)) fs h = h
AllFields-put_status (some (int (negsuc n))) fs h = h
AllFields-put_status (some (float x)) fs h = h
AllFields-put_status (some (str s)) fs h = h
AllFields-put_status (some (arr vs)) fs h = h
AllFields-put_status (some (obj gs)) fs h = h

visible_error-AllFields : (error : Fields) → AllFields IsErrorField (visible_error error)
unfolding visible_error text_eq is_one_of any
visible_error-AllFields error =
    let name = safe_error_token (get (codes "name") error) in
    let code = safe_error_token (get (codes "code") error) in
    let path = safe_error_path (get (codes "path") error) in
    AllFields-put IsErrorField (codes "message") (str (codes "OpenCode session failed")) _ refl (
      AllFields-put_text IsErrorField (codes "path") path _
        (λ s e.
          IfSome-some IsErrorPath path (safe_error_path-IsErrorPath (get (codes "path") error)) e)
        (AllFields-put_status (get (codes "status") error) _ (
          AllFields-put_text IsErrorField (codes "code") code _
            (λ s e. (
              refl,
              IfSome-some IsToken code (safe_error_token-IsToken (get (codes "code") error)) e,
            ))
            (AllFields-put_text IsErrorField (codes "name") name end
              (λ s e. (
                refl,
                IfSome-some IsToken name (safe_error_token-IsToken (get (codes "name") error)) e,
              ))
              tt))))

module _ (event_type : Text) where
  AllFields-visible_ids :
      (properties : Fields) → AllFields (IsVisibleField event_type) (visible_ids properties)
  unfolding visible_ids text_eq is_one_of any
  AllFields-visible_ids properties =
      let P = IsVisibleField event_type in
      AllFields-put_text P (codes "permission") (safe_string (get (codes "permission") properties))
        _ (λ s e. refl)
        (AllFields-put_text P (codes "action") (safe_string (get (codes "action") properties)) _
          (λ s e. refl)
          (AllFields-put_text P (codes "sessionID")
            (safe_string (get (codes "sessionID") properties)) _ (λ s e. refl)
            (AllFields-put_text P (codes "id") (safe_string (get (codes "id") properties)) end
              (λ s e. refl) tt)))

  AllFields-put_always :
      (o : Option Value) (fs : Fields)
      → is_one_of event_type (texts ("permission.asked" ∷ "permission.v2.asked" ∷ [])) ≡ true
      → AllFields (IsVisibleField event_type) fs
      → AllFields (IsVisibleField event_type) (put_always o fs)
  unfolding text_eq
  AllFields-put_always (some (bool b)) fs asked h =
      AllFields-put (IsVisibleField event_type) (codes "always") (bool b) fs asked h
  AllFields-put_always none fs asked h = h
  AllFields-put_always (some null) fs asked h = h
  AllFields-put_always (some (int n)) fs asked h = h
  AllFields-put_always (some (float x)) fs asked h = h
  AllFields-put_always (some (str s)) fs asked h = h
  AllFields-put_always (some (arr vs)) fs asked h = h
  AllFields-put_always (some (obj gs)) fs asked h = h

  AllFields-put_resources :
      (o : Option Items) (fs : Fields)
      → is_one_of event_type (texts ("permission.asked" ∷ "permission.v2.asked" ∷ [])) ≡ true
      → IfSome (AllItems IsText) o
      → AllFields (IsVisibleField event_type) fs
      → AllFields (IsVisibleField event_type) (put_resources o fs)
  unfolding text_eq
  AllFields-put_resources none fs asked h k = k
  AllFields-put_resources (some vs) fs asked h k =
      AllFields-put (IsVisibleField event_type) (codes "resources") (arr vs) fs (rw asked (refl, h))
        k

  AllFields-visible_body :
      (properties visible : Fields)
      → AllFields (IsVisibleField event_type) visible
      → AllFields (IsVisibleField event_type) (visible_body event_type properties visible)
  unfolding visible_body text_eq
  AllFields-visible_body properties visible h =
      if_ind (AllFields (IsVisibleField event_type))
        (is_one_of event_type (texts ("permission.asked" ∷ "permission.v2.asked" ∷ []))) _ _
        (λ asked. AllFields-put_always (get (codes "always") properties) _ asked (
          AllFields-put_resources _ visible asked
            (safe_string_list-AllItems
              (or_value (get (codes "resources") properties) (get (codes "patterns") properties)))
            h))
        (λ other.
          if_ind (AllFields (IsVisibleField event_type))
            (is_one_of event_type (texts ("question.asked" ∷ "question.v2.asked" ∷ []))) _ _
            (λ asked.
              AllFields-put (IsVisibleField event_type) (codes "questions") _ visible
                (rw (other, asked)
                  (refl, safe_questions-AllItems (get (codes "questions") properties)))
                h)
            (λ _. h))

  AllFields-put_error :
      (o : Option Value) (visible : Fields)
      → AllFields (IsVisibleField event_type) visible
      → AllFields (IsVisibleField event_type) (put_error event_type o visible)
  unfolding text_eq
  AllFields-put_error (some (obj error)) visible h =
      if_ind (AllFields (IsVisibleField event_type)) (text_eq event_type (codes "session.error")) _
        _
        (λ failed.
          AllFields-put (IsVisibleField event_type) (codes "error") _ visible
            (failed, visible_error-AllFields error) h)
        (λ _. h)
  AllFields-put_error none visible h = h
  AllFields-put_error (some null) visible h = h
  AllFields-put_error (some (bool b)) visible h = h
  AllFields-put_error (some (int n)) visible h = h
  AllFields-put_error (some (float x)) visible h = h
  AllFields-put_error (some (str s)) visible h = h
  AllFields-put_error (some (arr vs)) visible h = h

-- What is shown of an event has a fixed shape, whatever OpenCode sent. Its visible properties are: the
-- four ids and names, texts all of them; for a permission its resources, texts, and the flag
-- `always`; for a question its questions, whose fields and whose options' fields are texts under
-- fixed names; and for a session's error its name and code, of at most 128 harmless characters, its
-- status between 100 and 599, its path, of at most 256 harmless characters, and one fixed message.
pub visible_properties-AllFields :
    (event_type : Text) (properties : Value)
    → AllFields (IsVisibleField event_type) (visible_properties event_type properties)
unfolding visible_properties
visible_properties-AllFields event_type (obj properties) =
    AllFields-put_error event_type (get (codes "error") properties) _ (
      AllFields-visible_body event_type properties (visible_ids properties)
        (AllFields-visible_ids event_type properties))
visible_properties-AllFields event_type null = tt
visible_properties-AllFields event_type _ = tt
