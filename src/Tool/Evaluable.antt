-- ===== src/Tool/Evaluable.antt =====
-- What tool_service.py accepts for a new task, permission_policy.py can evaluate.
use opencode_orchestrator.Prelude.{◌≡◌, refl, ◌∙◌, Bool, true, false, List, Option, none, some}
use opencode_orchestrator.Prelude.Result.{
  Result, ok, err, IfOk, IfOk-ok, IfOk-bind, IfOk-skip, IfOk-const,
}
use opencode_orchestrator.Text.{Text, codes, text_eq}
use opencode_orchestrator.Value.{
  Value, null, bool, int, float, str, arr, obj, Items, Fields, get, put,
}
use opencode_orchestrator.Value.Laws.{get-put}
use opencode_orchestrator.Permission.Policy.{
  PolicyError, PermissionPolicy, normalize_permission_policy, policy_value,
}
use opencode_orchestrator.Permission.Policy.Roundtrip.{normalize_permission_policy_idem}
use opencode_orchestrator.Permission.Progress.{normalize_progress_policy, progress_policy_value}
use opencode_orchestrator.Permission.Decide.{PermissionDecision, iterate, get_or_empty}
use opencode_orchestrator.Permission.Evaluate.{forbidden_actions, evaluate_permission}
use opencode_orchestrator.Permission.Evaluate.Reached.{evaluate_permission_total}
use opencode_orchestrator.Tool.{
  value_or_null, item, get_or, as_object, nonblank, string_list, boolean,
}
use opencode_orchestrator.Tool.Contract.{task_contract_of, risk_of, model_of}
use opencode_orchestrator.Tool.Call.{lift_policy_error, with_model, complete_contract}

-- a list stands under the key
abbrev HasList : Text → Fields → Type 0
HasList key fs = (vs : Items) × (get key fs ≡ some (arr vs))

-- the policy under the key is one that was accepted
abbrev HasPolicy : Fields → Type 0
HasPolicy fs =
    (p : PermissionPolicy) × (get (codes "permission_policy") fs ≡ some (policy_value p))
    × (normalize_permission_policy (policy_value p) ≡ ok p)

string_list-HasList :
    (key : Text) (fs : Fields) (nonempty : Bool)
    → IfOk (λ _. HasList key fs) (string_list (item key fs) nonempty)
unfolding string_list
string_list-HasList key fs nonempty = go (get key fs) refl
  where
    go :
        (o : Option Value)
        → get key fs ≡ o
        → IfOk (λ _. HasList key fs) (string_list (value_or_null o) nonempty)
    go none e = tt
    go (some (arr vs)) e = IfOk-const (string_list (arr vs) nonempty) (vs, e)
    go (some null) e = tt
    go (some (bool b)) e = tt
    go (some (int n)) e = tt
    go (some (float x)) e = tt
    go (some (str s)) e = tt
    go (some (obj gs)) e = tt

task_contract_of-HasList :
    (v : Value) → IfOk (HasList (codes "forbidden_actions")) (task_contract_of v)
unfolding task_contract_of
task_contract_of-HasList v =
    let Q = HasList (codes "forbidden_actions") in
    IfOk-skip Q (as_object v) _ λ contract. IfOk-skip Q _ _ λ _.
      IfOk-skip Q (nonblank (item (codes "goal") contract)) _ λ _.
        IfOk-skip Q (string_list (item (codes "non_goals") contract) false) _ λ _.
          IfOk-skip Q (string_list (item (codes "approved_plan") contract) false) _ λ _.
            IfOk-skip Q (string_list (item (codes "allowed_paths") contract) true) _ λ _.
              IfOk-bind (λ _. Q contract) Q
                (string_list (item (codes "forbidden_actions") contract) false) _
                (string_list-HasList (codes "forbidden_actions") contract false)
                λ _ listed.
                  IfOk-skip Q (string_list (item (codes "acceptance_criteria") contract) false) _
                    λ _.
                      IfOk-skip Q (string_list (item (codes "test_commands") contract) false) _ λ _.
                        IfOk-skip Q (risk_of (item (codes "risk") contract)) _ λ _.
                          IfOk-skip Q (boolean (item (codes "user_approved") contract)) _
                            λ _. listed

-- both of them, and neither is touched by a write under another key
abbrev IsEvaluable : Fields → Type 0
IsEvaluable fs = HasList (codes "forbidden_actions") fs × HasPolicy fs

IsEvaluable-put :
    (key : Text) (v : Value) (fs : Fields)
    → text_eq key (codes "forbidden_actions") ≡ false
    → text_eq key (codes "permission_policy") ≡ false
    → IsEvaluable fs
    → IsEvaluable (put key v fs)
IsEvaluable-put key v fs f g ((vs, e), (p, q, r)) = (
  (vs, get-put key (codes "forbidden_actions") v fs ∙ rw f e),
  (p, get-put key (codes "permission_policy") v fs ∙ rw g q, r),
)

HasPolicy-put :
    (p : PermissionPolicy) (fs : Fields)
    → normalize_permission_policy (policy_value p) ≡ ok p
    → HasList (codes "forbidden_actions") fs
    → IsEvaluable (put (codes "permission_policy") (policy_value p) fs)
unfolding text_eq
HasPolicy-put p fs r (vs, e) = (
  (vs, get-put (codes "permission_policy") (codes "forbidden_actions") (policy_value p) fs ∙ e),
  (p, get-put (codes "permission_policy") (codes "permission_policy") (policy_value p) fs, r),
)

lift_policy_error-accepted :
    (v : Value)
    → IfOk
        (λ p. normalize_permission_policy (policy_value p) ≡ ok p)
        (lift_policy_error (normalize_permission_policy v))
lift_policy_error-accepted v = go (normalize_permission_policy v) refl
  where
    go :
        (r : Result PolicyError PermissionPolicy)
        → normalize_permission_policy v ≡ r
        → IfOk (λ p. normalize_permission_policy (policy_value p) ≡ ok p) (lift_policy_error r)
    go (ok p) e = normalize_permission_policy_idem v e
    go (err x) e = tt

with_model-IsEvaluable :
    (o : Option Value) (fs : Fields) → IsEvaluable fs → IfOk IsEvaluable (with_model o fs)
unfolding with_model text_eq
with_model-IsEvaluable none fs h = h
with_model-IsEvaluable (some v) fs h =
    IfOk-skip IsEvaluable (model_of v) _
      λ model. IsEvaluable-put (codes "model") (obj model) fs refl refl h

complete_contract-IsEvaluable :
    (arguments : Fields) → IfOk IsEvaluable (complete_contract arguments)
unfolding complete_contract text_eq
complete_contract-IsEvaluable arguments =
    let Q = IsEvaluable in
    IfOk-bind (HasList (codes "forbidden_actions")) Q
      (task_contract_of (item (codes "task_contract") arguments)) _
      (task_contract_of-HasList (item (codes "task_contract") arguments))
      λ contract listed.
        IfOk-bind (λ p. normalize_permission_policy (policy_value p) ≡ ok p) Q
          (lift_policy_error
            (normalize_permission_policy (item (codes "permission_policy") arguments)))
          _ (lift_policy_error-accepted (item (codes "permission_policy") arguments))
          λ p accepted.
            IfOk-skip Q
              (lift_policy_error
                (normalize_progress_policy (item (codes "progress_policy") arguments)))
              _
              λ progress.
                IfOk-bind Q Q (with_model (get (codes "model") arguments) _) _
                  (with_model-IsEvaluable (get (codes "model") arguments) _ (
                    IsEvaluable-put (codes "progress_policy") (progress_policy_value progress) _
                      refl refl (HasPolicy-put p contract accepted listed)))
                  λ policies h.
                    IfOk-skip Q
                      (nonblank (get_or (get (codes "effort") arguments) (str (codes "max")))) _
                      λ effort. IsEvaluable-put (codes "effort") (str effort) policies refl refl h

forbidden_actions-listed :
    (lower : Text → Text) (fs : Fields)
    → HasList (codes "forbidden_actions") fs
    → (items : List Text) × (forbidden_actions lower (obj fs) ≡ ok items)
unfolding forbidden_actions iterate get_or_empty
forbidden_actions-listed lower fs (vs, e) = rw e (_, refl)

-- Every request of a delegated task gets a decision: where the arguments of `delegate_and_wait` are
-- accepted, the contract that is handed on holds a policy, and `evaluate_permission`, with that policy
-- and that contract, returns for every request and every worktree.
pub complete_contract-evaluate_permission :
    (lower : Text → Text) (arguments : Fields) {contract : Fields} (request : Value)
    (worktree_path : Option Text)
    → complete_contract arguments ≡ ok contract
    → (p : PermissionPolicy) × (get (codes "permission_policy") contract ≡ some (policy_value p))
      × (d : PermissionDecision) × (evaluate_permission lower
            (policy_value p)
            request
            (obj contract)
            worktree_path
          ≡ ok d)
complete_contract-evaluate_permission lower arguments {contract} request worktree_path e =
    let (listed, (p, q, r)) =
      IfOk-ok IsEvaluable (complete_contract arguments) (complete_contract-IsEvaluable arguments)
        e in
    let (items, f) = forbidden_actions-listed lower contract listed in
    let (d, g) =
      evaluate_permission_total lower (policy_value p) request (obj contract) worktree_path r f in
    (p, q, d, g)
