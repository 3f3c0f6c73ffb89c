-- ===== src/Pending/Permissions.antt =====
-- What `normalize_permission_request` of pending_input.py accepts: it reads its own event back, and
-- `evaluate_permission` of permission_policy.py reads the `dict` that it returns.
use opencode_orchestrator.Prelude.{
  ◌≡◌, ◌≢◌, refl, sym, subst, ◌∙◌, Bool, false, not, ◌||◌, List, [], ◌∷◌, Option, none, some,
  IfSome, Bool-cases, inl, inr, if◌then◌else◌, if_ind, is_empty,
}
use opencode_orchestrator.Prelude.Result.{ok, IfOk, IfOk-ok, IfOk-bind, IfOk-require, IfOk-trivial}
use opencode_orchestrator.Text.{Text, codes, text_eq, is_one_of, strip, is_blank}
use opencode_orchestrator.Text.Laws.{text_eq-eq, text_eq_refl}
use opencode_orchestrator.Value.{Value, null, str, arr, obj, Items, nil, cons, Fields, get}
use opencode_orchestrator.Permission.Edit.{push}
use opencode_orchestrator.Permission.Policy.{PermissionPolicy}
use opencode_orchestrator.Permission.Decide.{
  target_texts, targets_of, asking, unknown_permission, known_permissions, permission_of,
}
use opencode_orchestrator.Permission.Evaluate.{evaluate_request, evaluate_targets}
use opencode_orchestrator.Permission.Evaluate.Allowed.{target_texts-ne-nil}
use opencode_orchestrator.Pending.{
  PermissionRequest, nonblank_string, session_id_of, raw_object, select_either, select_field,
  target_list, targets, wrong_session, source_of, take_ids, source_ids,
  normalize_permission_request, text_values, permission_request_value, permission_properties,
}

-- not empty, and without blanks around it
abbrev pub IsTrimmed : Text → Type 0
IsTrimmed s = nonblank_string (some (str s)) ≡ ok s

pub nonblank_string-IsTrimmed : (o : Option Value) → IfOk IsTrimmed (nonblank_string o)
unfolding nonblank_string
nonblank_string-IsTrimmed none = tt
nonblank_string-IsTrimmed (some (str s)) =
    if_ind (IfOk IsTrimmed) (is_empty s || is_blank s || not (text_eq s (strip s))) _ _ (λ _. tt)
      (λ fine. rw (nonblank_string, fine) refl)
nonblank_string-IsTrimmed (some null) = tt
nonblank_string-IsTrimmed (some _) = tt

-- the session is the one that was asked for
abbrev pub IsSession : Text → Text → Type 0
IsSession session_id actual = (actual ≡ session_id) × IsTrimmed session_id

nonblank_string-IsSession : (s : Text) → IfOk (IsSession s) (nonblank_string (some (str s)))
unfolding nonblank_string
nonblank_string-IsSession s =
    if_ind (IfOk (IsSession s)) (is_empty s || is_blank s || not (text_eq s (strip s))) _ _
      (λ _. tt) (λ fine. (refl, rw (nonblank_string, fine) refl))

pub session_id_of-IsSession :
    (raw : Fields) (session_id : Text) → IfOk (IsSession session_id) (session_id_of raw session_id)
unfolding session_id_of
session_id_of-IsSession raw session_id =
    IfOk-bind (IsSession session_id) (IsSession session_id) _ _
      (nonblank_string-IsSession session_id)
      λ requested trimmed.
        IfOk-bind (λ _. Unit {0}) (IsSession session_id) _ _
          (IfOk-trivial (nonblank_string (get (codes "sessionID") raw)))
          λ actual _.
            IfOk-require (IsSession session_id) (text_eq actual requested) wrong_session _
              λ same. (text_eq-eq actual requested same ∙ trimmed.0, trimmed.1)

-- the texts are targets, and are read back as such
abbrev pub AreRead : List Text → Type 0
AreRead ts = targets_of (some (arr (text_values ts))) ≡ some ts

target_texts-values :
    (vs : Items) → IfSome (λ ts. target_texts (text_values ts) ≡ some ts) (target_texts vs)
unfolding target_texts
target_texts-values nil = refl
target_texts-values (cons (str s) vs) =
    if_ind (IfSome (λ ts. target_texts (text_values ts) ≡ some ts)) (is_blank s) _ _ (λ _. tt)
      (λ filled. pushed (target_texts vs) (target_texts-values vs) filled)
  where
    pushed :
        (o : Option (List Text))
        → IfSome (λ ts. target_texts (text_values ts) ≡ some ts) o
        → is_blank s ≡ false
        → IfSome (λ ts. target_texts (text_values ts) ≡ some ts) (push s o)
    pushed none h f = tt
    pushed (some ts) h f = rw (f, h) refl
target_texts-values (cons null vs) = tt
target_texts-values (cons _ vs) = tt

targets_of-AreRead : (o : Option Value) → IfSome AreRead (targets_of o)
unfolding targets_of
targets_of-AreRead none = tt
targets_of-AreRead (some (arr nil)) = tt
targets_of-AreRead (some (arr (cons v vs))) =
    go (target_texts (cons v vs)) (target_texts-values (cons v vs))
      (λ h. target_texts-ne-nil v vs h)
  where
    go :
        (o : Option (List Text))
        → IfSome (λ ts. target_texts (text_values ts) ≡ some ts) o
        → (o ≢ some [])
        → IfSome AreRead o
    go none h k = tt
    go (some []) h k = absurd (k refl)
    go (some (t ∷ ts)) h k = h
targets_of-AreRead (some null) = tt
targets_of-AreRead (some _) = tt

targets-AreRead :
    (same_number : Value → Value → Bool) (raw : Fields) → IfOk AreRead (targets same_number raw)
unfolding targets target_list
targets-AreRead same_number raw =
    IfOk-bind (λ _. Unit {0}) AreRead
      (select_field same_number raw (codes "resources") (codes "patterns")) _
      (IfOk-trivial (select_field same_number raw (codes "resources") (codes "patterns")))
      (λ value _. listed (targets_of (some value)) (targets_of-AreRead (some value)))
  where
    listed : (o : Option (List Text)) → IfSome AreRead o → IfOk AreRead (target_list o)
    listed none h = tt
    listed (some ts) h = h

-- A normalized request of a session.
pub record IsNormalized (session_id : Text) (r : PermissionRequest) : Type 0 where
  pub id_trimmed : IsTrimmed r.request_id
  pub in_session : IsSession session_id r.session_id
  pub permission_trimmed : IsTrimmed r.permission
  pub patterns_read : AreRead r.patterns

pub normalize_permission_request-IsNormalized :
    (same_number : Value → Value → Bool) (raw : Value) (session_id : Text)
    → IfOk (IsNormalized session_id) (normalize_permission_request same_number raw session_id)
unfolding normalize_permission_request
normalize_permission_request-IsNormalized same_number raw session_id =
    IfOk-bind (λ _. Unit {0}) (IsNormalized session_id) _ _ (IfOk-trivial (raw_object raw))
      λ value _.
        IfOk-bind IsTrimmed (IsNormalized session_id) _ _
          (nonblank_string-IsTrimmed (get (codes "id") value))
          λ request_id a.
            IfOk-bind (IsSession session_id) (IsNormalized session_id) _ _
              (session_id_of-IsSession value session_id)
              λ actual b.
                IfOk-bind (λ _. Unit {0}) (IsNormalized session_id)
                  (select_field same_number value (codes "action") (codes "permission")) _
                  (IfOk-trivial
                    (select_field same_number value (codes "action") (codes "permission")))
                  λ chosen _.
                    IfOk-bind IsTrimmed (IsNormalized session_id) _ _
                      (nonblank_string-IsTrimmed (some chosen))
                      λ permission c.
                        IfOk-bind AreRead (IsNormalized session_id) (targets same_number value) _
                          (targets-AreRead same_number value)
                          λ patterns d.
                            IfOk-bind (λ _. Unit {0}) (IsNormalized session_id) _ _
                              (IfOk-trivial (source_ids value))
                              λ ids _. record {
                                id_trimmed = a;
                                in_session = b;
                                permission_trimmed = c;
                                patterns_read = d;
                              }

-- what the event of a request reads back as: the request, without its message and call
abbrev pub without_source : PermissionRequest → PermissionRequest
without_source r = record r { message_id = none; call_id = none }

normalize-permission_properties :
    (same_number : Value → Value → Bool) (r : PermissionRequest)
    → IsNormalized r.session_id r
    → normalize_permission_request same_number (permission_properties r) r.session_id
      ≡ ok (without_source r)
unfolding normalize_permission_request permission_properties raw_object session_id_of select_field
    select_either targets target_list source_ids source_of take_ids get text_eq
normalize-permission_properties same_number r h =
    rw
      (
        h.id_trimmed,
        h.in_session.1,
        h.permission_trimmed,
        h.patterns_read,
        text_eq_refl r.session_id,
      )
      refl

-- The event of a permission request loses nothing of it: whatever OpenCode sent, if it normalizes for
-- a session, the properties of the event that is published normalize for that session, to the same
-- request without its message and call.
pub normalize_permission_request-permission_properties :
    (same_number : Value → Value → Bool) (raw : Value) (session_id : Text) {r : PermissionRequest}
    → normalize_permission_request same_number raw session_id ≡ ok r
    → normalize_permission_request same_number (permission_properties r) session_id
      ≡ ok (without_source r)
normalize_permission_request-permission_properties same_number raw session_id {r} e =
    let h : IsNormalized session_id r =
      IfOk-ok (IsNormalized session_id) (normalize_permission_request same_number raw session_id)
        (normalize_permission_request-IsNormalized same_number raw session_id) e in
    let own : IsNormalized r.session_id r = subst (λ t. IsNormalized t r) (sym h.in_session.0) h in
    subst
      (λ t.
        normalize_permission_request same_number (permission_properties r) t
        ≡ ok (without_source r))
      h.in_session.0 (normalize-permission_properties same_number r own)

permission_of-text :
    (s : Text)
    → permission_of (some (str s)) ≡ (if is_one_of s known_permissions then some s else none)
unfolding permission_of
permission_of-text s = refl

-- A normalized request is determinate for the policy: its evaluation asks about an unknown permission,
-- or goes on with the request's own permission and patterns.
pub evaluate_request-normalized :
    (same_number : Value → Value → Bool) (raw : Value) (session_id : Text) {r : PermissionRequest}
    (lower : Text → Text) (policy : PermissionPolicy) (contract : Value)
    (worktree_path : Option Text)
    → normalize_permission_request same_number raw session_id ≡ ok r
    → evaluate_request lower policy (obj (permission_request_value r)) contract worktree_path ≡ (
        if is_one_of r.permission known_permissions
        then evaluate_targets lower policy r.permission r.patterns contract worktree_path
        else ok (asking unknown_permission))
unfolding evaluate_request permission_request_value get text_eq permission_of
evaluate_request-normalized same_number raw session_id {r} lower policy contract worktree_path e =
    let h : IsNormalized session_id r =
      IfOk-ok (IsNormalized session_id) (normalize_permission_request same_number raw session_id)
        (normalize_permission_request-IsNormalized same_number raw session_id) e in
    elim (Bool-cases (is_one_of r.permission known_permissions)) [
      | inl known ↦ rw (known, h.patterns_read) refl
      | inr unknown ↦ rw unknown refl
    ]
