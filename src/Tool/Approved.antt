-- ===== src/Tool/Approved.antt =====
-- What a reply to a permission must say to be accepted by tool_service.py.
use opencode_orchestrator.Prelude.{
  ◌≡◌, refl, sym, subst, true, false, [], ◌∷◌, Option, none, some, if_ind,
}
use opencode_orchestrator.Prelude.Result.{
  ok, IfOk, IfOk-ok, IfOk-bind, IfOk-skip, IfOk-require, IfOk-map,
}
use opencode_orchestrator.Text.{Text, codes, texts, text_eq, is_one_of, is_blank}
use opencode_orchestrator.Text.Laws.{text_eq-eq, text_eq_refl}
use opencode_orchestrator.Value.{Value, null, bool, int, float, str, arr, obj, Fields, get}
use opencode_orchestrator.Tool.{
  ToolInputError, always_needs_approval, remember_needs_once, remember_needs_approval, as_object,
  value_or_null, item, nonblank,
}
use opencode_orchestrator.Tool.Contract.{is_true}
use opencode_orchestrator.Tool.Reply.{
  if_boolean, if_nonblank, response_of, check_approval, check_always, check_remembered,
  check_remember, check_permission, check_reply, validate_reply_payload,
}

-- the payload has the text under the key, and it is not blank
abbrev pub HasText : Text → Fields → Type 0
HasText key fs = (s : Text) × (get key fs ≡ some (str s)) × (is_blank s ≡ false)

-- the user's approval, with its basis
abbrev pub IsApproved : Fields → Type 0
IsApproved fs =
    (get (codes "user_approved") fs ≡ some (bool true)) × HasText (codes "approval_basis") fs

-- a reply to a permission: `always` and a remembered reply are approved, and the latter is `once`
pub record IsReply (fs : Fields) : Type 0 where
  pub has_id : HasText (codes "request_id") fs
  pub response : Text
  pub is_response : get (codes "response") fs ≡ some (str response)
  pub known : is_one_of response (texts ("once" ∷ "always" ∷ "reject" ∷ [])) ≡ true
  pub always_approved : response ≡ codes "always" → IsApproved fs
  pub remembered_approved :
      get (codes "remember_for_task") fs ≡ some (bool true)
      → (response ≡ codes "once") × IsApproved fs

nonblank-HasText : (key : Text) (fs : Fields) → IfOk (λ _. HasText key fs) (nonblank (item key fs))
unfolding nonblank
nonblank-HasText key fs = go (get key fs) refl
  where
    go :
        (o : Option Value)
        → get key fs ≡ o
        → IfOk (λ _. HasText key fs) (nonblank (value_or_null o))
    go none e = tt
    go (some (str s)) e =
        if_ind (IfOk (λ _. HasText key fs)) (is_blank s) _ _ (λ _. tt) (λ filled. (s, e, filled))
    go (some null) e = tt
    go (some (bool b)) e = tt
    go (some (int n)) e = tt
    go (some (float x)) e = tt
    go (some (arr vs)) e = tt
    go (some (obj gs)) e = tt

is_true-item :
    (key : Text) (fs : Fields) → is_true (item key fs) ≡ true → get key fs ≡ some (bool true)
is_true-item key fs h = go (get key fs) refl h
  where
    go :
        (o : Option Value)
        → get key fs ≡ o
        → is_true (value_or_null o) ≡ true
        → get key fs ≡ some (bool true)
    go none e h = cc
    go (some (bool true)) e h = e
    go (some (bool false)) e h = cc
    go (some null) e h = cc
    go (some (int n)) e h = cc
    go (some (float x)) e h = cc
    go (some (str s)) e h = cc
    go (some (arr vs)) e h = cc
    go (some (obj gs)) e h = cc

check_approval-IsApproved :
    (fs : Fields) (error : ToolInputError) → IfOk (λ _. IsApproved fs) (check_approval fs error)
unfolding check_approval
check_approval-IsApproved fs error =
    IfOk-require (λ _. IsApproved fs) (is_true (item (codes "user_approved") fs)) error _
      λ approved.
        IfOk-bind (λ _. HasText (codes "approval_basis") fs) (λ _. IsApproved fs)
          (nonblank (item (codes "approval_basis") fs)) _
          (nonblank-HasText (codes "approval_basis") fs)
          λ _ basis. (is_true-item (codes "user_approved") fs approved, basis)

IsKnown : Fields → Text → Type 0
IsKnown fs s =
    (get (codes "response") fs ≡ some (str s))
    × (is_one_of s (texts ("once" ∷ "always" ∷ "reject" ∷ [])) ≡ true)

response_of-IsKnown : (fs : Fields) → IfOk (IsKnown fs) (response_of (item (codes "response") fs))
unfolding response_of IsKnown
response_of-IsKnown fs = go (get (codes "response") fs) refl
  where
    go :
        (o : Option Value)
        → get (codes "response") fs ≡ o
        → IfOk (IsKnown fs) (response_of (value_or_null o))
    go none e = tt
    go (some (str s)) e =
        if_ind (IfOk (IsKnown fs)) (is_one_of s (texts ("once" ∷ "always" ∷ "reject" ∷ []))) _ _
          (λ known. (e, known)) (λ _. tt)
    go (some null) e = tt
    go (some (bool b)) e = tt
    go (some (int n)) e = tt
    go (some (float x)) e = tt
    go (some (arr vs)) e = tt
    go (some (obj gs)) e = tt

check_always-IsApproved :
    (fs : Fields) (response : Text)
    → IfOk (λ _. response ≡ codes "always" → IsApproved fs) (check_always fs response)
unfolding check_always
check_always-IsApproved fs response =
    let Q = λ (_ : Unit {0}). (response ≡ codes "always" → IsApproved fs) in
    if_ind (IfOk Q) (text_eq response (codes "always")) _ _
      (λ _.
        IfOk-map (λ _ h _. h) (check_approval fs always_needs_approval)
          (check_approval-IsApproved fs always_needs_approval))
      (λ other same. absurd (
        cc (
          other,
          subst (λ t. text_eq t (codes "always") ≡ true) (sym same) (text_eq_refl (codes "always")),
        )))

check_remember-IsApproved :
    (fs : Fields) (response : Text)
    → IfOk
        (λ _.
          get (codes "remember_for_task") fs ≡ some (bool true)
          → (response ≡ codes "once") × IsApproved fs)
        (check_remember fs response)
unfolding check_remember check_remembered
check_remember-IsApproved fs response =
    let Q = λ (_ : Unit {0}).
      (get (codes "remember_for_task") fs ≡ some (bool true)
        → (response ≡ codes "once") × IsApproved fs) in
    if_ind (IfOk Q) (is_true (item (codes "remember_for_task") fs)) _ _
      (λ _. IfOk-require Q (text_eq response (codes "once")) remember_needs_once _ λ once.
        IfOk-map (λ _ h _. (text_eq-eq response (codes "once") once, h))
          (check_approval fs remember_needs_approval)
          (check_approval-IsApproved fs remember_needs_approval))
      (λ off on. absurd (cc (off, on)))

check_permission-IsReply : (fs : Fields) → IfOk (λ _. IsReply fs) (check_permission fs)
unfolding check_permission IsKnown
check_permission-IsReply fs =
    let Q = λ (_ : Unit {0}). IsReply fs in
    IfOk-skip Q _ _ λ _.
      IfOk-bind (λ _. HasText (codes "request_id") fs) Q (nonblank (item (codes "request_id") fs)) _
        (nonblank-HasText (codes "request_id") fs)
        λ _ id.
          IfOk-bind (IsKnown fs) Q (response_of (item (codes "response") fs)) _
            (response_of-IsKnown fs)
            λ response known. IfOk-skip Q (if_boolean (get (codes "user_approved") fs)) _ λ _.
              IfOk-skip Q (if_nonblank (get (codes "approval_basis") fs)) _ λ _.
                IfOk-skip Q (if_boolean (get (codes "remember_for_task") fs)) _ λ _.
                  IfOk-bind (λ _. response ≡ codes "always" → IsApproved fs) Q
                    (check_always fs response) _ (check_always-IsApproved fs response)
                    λ _ always.
                      IfOk-map
                        (λ _ remembered. record {
                          has_id = id;
                          response = response;
                          is_response = known.0;
                          known = known.1;
                          always_approved = always;
                          remembered_approved = remembered;
                        })
                        (check_remember fs response) (check_remember-IsApproved fs response)

-- A reply to a permission is accepted only with the user's approval where it reaches beyond one
-- request: it names its request in a text that is not blank, its response is `once`, `always` or
-- `reject`; for `always` the user's approval is `True`, with a basis that is not blank; and a reply that
-- is to be remembered for the task is `once`, and has the same.
pub validate_reply_payload-IsReply :
    (value : Value) {payload : Fields}
    → validate_reply_payload (codes "permission") value ≡ ok payload
    → IsReply payload
unfolding validate_reply_payload check_reply text_eq
validate_reply_payload-IsReply value e =
    IfOk-ok IsReply (validate_reply_payload (codes "permission") value)
      (IfOk-skip IsReply (as_object value) _ λ payload.
        IfOk-bind (λ _. IsReply payload) IsReply (check_permission payload) _
          (check_permission-IsReply payload) (λ _ h. h))
      e
