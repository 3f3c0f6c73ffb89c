-- ===== src/Permission/Progress.antt =====
-- `normalize_progress_policy` of permission_policy.py: how long a task may be silent.
use opencode_orchestrator.Prelude.{
  ℕ, true, ◌≡◌, refl, ◌&&◌, List, [], ◌∷◌, Option, none, some, all, leb, any, if_ind, if◌then◌else◌,
}
use opencode_orchestrator.Prelude.Result.{
  Result, ok, err, require, ◌>>=◌, ◌>>◌, IfOk, IfOk-ok, IfOk-bind, IfOk-require, IfOk-trivial,
}
use opencode_orchestrator.Text.{Text, codes, texts, text_eq, is_one_of}
use opencode_orchestrator.Value.{pos, Value, null, int, negsuc, obj, end, field, get}
use opencode_orchestrator.Permission.Policy.{
  PolicyError, unknown_keys, bad_probe, bad_stall, object, only_keys,
}

pub record ProgressPolicy : Type 0 where
  pub input_probe_interval_seconds : ℕ
  pub stall_timeout_seconds : ℕ

-- `isinstance(v, int) and not isinstance(v, bool) and low <= v <= high`
unfoldable pub seconds_field : Option Value → ℕ → ℕ → ℕ → PolicyError → Result PolicyError ℕ
seconds_field none default low high e = ok default
seconds_field (some (int (pos n))) default low high e =
    if leb low n && leb n high then ok n else err e
seconds_field (some _) default low high e = err e

abbrev progress_keys : List Text
progress_keys = texts ("input_probe_interval_seconds" ∷ "stall_timeout_seconds" ∷ [])

unfoldable pub normalize_progress_policy : Value → Result PolicyError ProgressPolicy
normalize_progress_policy value = do
  raw ← object value
  require (only_keys progress_keys raw) unknown_keys
  probe ← seconds_field (get (codes "input_probe_interval_seconds") raw) 15 5 300 bad_probe
  stall ← seconds_field (get (codes "stall_timeout_seconds") raw) 600 30 86400 bad_stall
  ok (record { input_probe_interval_seconds = probe; stall_timeout_seconds = stall })

-- A delay that is read lies in its bounds, if its default does.
seconds_field-bounds :
    (o : Option Value) (default low high : ℕ) (e : PolicyError)
    → leb low default && leb default high ≡ true
    → IfOk (λ n. leb low n && leb n high ≡ true) (seconds_field o default low high e)
unfolding seconds_field
seconds_field-bounds none default low high e h = h
seconds_field-bounds (some (int (pos n))) default low high e h =
    if_ind (IfOk (λ m. leb low m && leb m high ≡ true)) (leb low n && leb n high) _ _ (λ t. t)
      (λ _. tt)
seconds_field-bounds (some (int (negsuc n))) default low high e h = tt
seconds_field-bounds (some null) default low high e h = tt
seconds_field-bounds (some _) default low high e h = tt

-- Both delays lie in the ranges that the program documents.
pub record InBounds (p : ProgressPolicy) : Type 0 where
  pub probe : leb 5 p.input_probe_interval_seconds && leb p.input_probe_interval_seconds 300 ≡ true
  pub stall : leb 30 p.stall_timeout_seconds && leb p.stall_timeout_seconds 86400 ≡ true

-- The `dict` that a normalized policy is in the program.
abbrev pub progress_policy_value : ProgressPolicy → Value
progress_policy_value p = obj (
    field (codes "input_probe_interval_seconds") (int (pos p.input_probe_interval_seconds))
      (field (codes "stall_timeout_seconds") (int (pos p.stall_timeout_seconds)) end))

normalize_progress_policy-IfInBounds :
    (value : Value) → IfOk InBounds (normalize_progress_policy value)
unfolding normalize_progress_policy
normalize_progress_policy-IfInBounds value =
    IfOk-bind (λ _. Unit {0}) InBounds _ _ (IfOk-trivial (object value))
      λ raw _. IfOk-require InBounds (only_keys progress_keys raw) unknown_keys _ λ _.
        IfOk-bind (λ n. leb 5 n && leb n 300 ≡ true) InBounds _ _
          (seconds_field-bounds (get (codes "input_probe_interval_seconds") raw) 15 5 300 bad_probe
            refl)
          λ probe p.
            IfOk-bind (λ n. leb 30 n && leb n 86400 ≡ true) InBounds _ _
              (seconds_field-bounds (get (codes "stall_timeout_seconds") raw) 600 30 86400 bad_stall
                refl)
              λ stall q. record { probe = p; stall = q }

normalize-progress_policy_value :
    (p : ProgressPolicy) → InBounds p → normalize_progress_policy (progress_policy_value p) ≡ ok p
unfolding normalize_progress_policy object only_keys all is_one_of text_eq get seconds_field any
normalize-progress_policy_value p h = rw (h.probe, h.stall)

-- A progress policy that is accepted has both delays in the documented ranges, and the `dict` that
-- is kept of it is accepted again, unchanged.
pub normalize_progress_policy-InBounds :
    (value : Value) {p : ProgressPolicy}
    → normalize_progress_policy value ≡ ok p
    → InBounds p × (normalize_progress_policy (progress_policy_value p) ≡ ok p)
normalize_progress_policy-InBounds value {p} e =
    let h =
      IfOk-ok InBounds (normalize_progress_policy value)
        (normalize_progress_policy-IfInBounds value) e in
    (h, normalize-progress_policy_value p h)
