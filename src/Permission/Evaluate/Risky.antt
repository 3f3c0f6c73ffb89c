-- ===== src/Permission/Evaluate/Risky.antt =====
-- What `evaluate_permission` of permission_policy.py never allows: targets with a high-risk fragment
-- or a forbidden action of the contract in them, and bash commands outside its grammar.
use opencode_orchestrator.Prelude.{
  ◌≡◌, ◌≢◌, subst, Bool, true, false, List, [], ◌∷◌, Option, some, arith, All, any, inl, inr, Some,
  Unless-true, Some-map, All-Some-absurd, All-zip,
}
use opencode_orchestrator.Prelude.Result.{ok, IfOk-ok}
use opencode_orchestrator.Text.{Text, codes, text_eq, is_in}
use opencode_orchestrator.Value.{Value, str, obj, Fields, get}
use opencode_orchestrator.Permission.Policy.{allow}
use opencode_orchestrator.Permission.Risk.{lowered, has_high_risk_action}
use opencode_orchestrator.Permission.Decide.{PermissionDecision, targets_of}
use opencode_orchestrator.Permission.Evaluate.{forbidden_actions, evaluate_permission}
use opencode_orchestrator.Text.Search.{is_in-join}
use opencode_orchestrator.Permission.Risk.{contains_any, high_risk_fragments, padded}
use opencode_orchestrator.Permission.Plain.{IsPlainCommand, bash_is_plain}
use opencode_orchestrator.Text.Laws.{text_eq_refl}
use opencode_orchestrator.Permission.Evaluate.Allowed.{IsAllowed, evaluate_permission-IsAllowed}

-- a target, as it is searched, has the text in it
abbrev pub Contains : (Text → Text) → Text → List Text → Type 0
Contains lower part targets = Some (λ t. is_in part (padded lower t) ≡ true) targets

lowered-Contains :
    (lower : Text → Text) (part : Text) (targets : List Text)
    → Contains lower part targets
    → is_in part (lowered lower targets) ≡ true
unfolding lowered
lowered-Contains lower part targets h = is_in-join part (10 ∷ []) targets (padded lower) h

Some-any : (p : Text → Bool) (xs : List Text) → Some (λ x. p x ≡ true) xs → any p xs ≡ true
unfolding any
Some-any p [] h = absurd h
Some-any p (x ∷ xs) (inl h) = ground arith
Some-any p (x ∷ xs) (inr h) = ground (arith, Some-any p xs h)

has_high_risk_action_of_fragment :
    (lower : Text → Text) (permission : Text) (targets : List Text)
    → Some (λ f. Contains lower f targets) high_risk_fragments
    → has_high_risk_action lower permission targets ≡ true
unfolding has_high_risk_action contains_any
has_high_risk_action_of_fragment lower permission targets h = ground (
  arith,
  Some-any (λ m. is_in m (lowered lower targets)) high_risk_fragments
      (Some-map (λ f. lowered-Contains lower f targets) high_risk_fragments h),
)

-- the targets that were granted are those of the request
same_targets :
    {lower : Text → Text} {policy contract : Value} {fs : Fields} {worktree_path : Option Text}
    {targets : List Text}
    → targets_of (get (codes "patterns") fs) ≡ some targets
    → (a : IsAllowed lower policy (obj fs) contract worktree_path) → a.targets ≡ targets
same_targets t a = cc (t, a.has_targets, a.is_object)

same_permission :
    {lower : Text → Text} {policy contract : Value} {fs : Fields} {worktree_path : Option Text}
    {permission : Text}
    → get (codes "permission") fs ≡ some (str permission)
    → (a : IsAllowed lower policy (obj fs) contract worktree_path) → a.permission ≡ permission
same_permission t a = cc (t, a.asks_for, a.is_object)

-- No policy, rule or contract makes a request allowed that has a high-risk fragment in one of its
-- targets, wherever it stands there once the target is stripped and lowered, with a space around it.
pub high_risk-not-allowed :
    (lower : Text → Text) (policy contract : Value) (fs : Fields) (worktree_path : Option Text)
    (targets : List Text) {d : PermissionDecision}
    → targets_of (get (codes "patterns") fs) ≡ some targets
    → Some (λ f. Contains lower f targets) high_risk_fragments
    → evaluate_permission lower policy (obj fs) contract worktree_path ≡ ok d
    → d.action ≢ allow
high_risk-not-allowed lower policy contract fs worktree_path targets t risky e h =
    let a = evaluate_permission-IsAllowed lower policy (obj fs) contract worktree_path e h in
    let low : has_high_risk_action lower a.permission targets ≡ false =
      subst (λ ts. has_high_risk_action lower a.permission ts ≡ false) (same_targets t a)
        a.granted.low_risk in
    cc (low, has_high_risk_action_of_fragment lower a.permission targets risky)

-- A forbidden action of the contract is never allowed: where the lowered text of one stands in a
-- target, stripped and lowered, the decision is no approval.
pub forbidden-not-allowed :
    (lower : Text → Text) (policy contract : Value) (fs : Fields) (worktree_path : Option Text)
    (targets items : List Text) {d : PermissionDecision}
    → targets_of (get (codes "patterns") fs) ≡ some targets
    → forbidden_actions lower contract ≡ ok items
    → Some (λ item. Contains lower item targets) items
    → evaluate_permission lower policy (obj fs) contract worktree_path ≡ ok d
    → d.action ≢ allow
forbidden-not-allowed lower policy contract fs worktree_path targets items t f found e h =
    let a = evaluate_permission-IsAllowed lower policy (obj fs) contract worktree_path e h in
    let clean : All (λ item. is_in item (lowered lower targets) ≡ false) items =
      subst (λ ts. All (λ item. is_in item (lowered lower ts) ≡ false) items) (same_targets t a)
        (IfOk-ok (λ l. All (λ item. is_in item (lowered lower a.targets) ≡ false) l) _
          a.granted.permitted.unforbidden f) in
    All-Some-absurd (λ item. is_in item (lowered lower targets)) items clean
      (Some-map (λ item. lowered-Contains lower item targets) items found)

-- An allowed bash command is plain: it has no character of shell syntax, it splits into words, and
-- the first word is one of the known programs, named without a path.
pub bash_allowed-IsPlainCommand :
    (lower : Text → Text) (policy contract : Value) (fs : Fields) (worktree_path : Option Text)
    (targets : List Text) {d : PermissionDecision}
    → get (codes "permission") fs ≡ some (str (codes "bash"))
    → targets_of (get (codes "patterns") fs) ≡ some targets
    → evaluate_permission lower policy (obj fs) contract worktree_path ≡ ok d
    → d.action ≡ allow
    → All IsPlainCommand targets
bash_allowed-IsPlainCommand lower policy contract fs worktree_path targets q t e h =
    let a = evaluate_permission-IsAllowed lower policy (obj fs) contract worktree_path e h in
    let bash : text_eq a.permission (codes "bash") ≡ true =
      rw (same_permission q a) (text_eq_refl (codes "bash")) in
    subst (All IsPlainCommand) (same_targets t a) (
      All-zip (bash_is_plain contract) a.targets (Unless-true bash a.granted.determinate)
        (Unless-true bash a.granted.permitted.supported))
