-- ===== src/Permission/Evaluate/Gates.antt =====
-- What has passed when `evaluate_permission` of permission_policy.py allows a request.
use opencode_orchestrator.Prelude.{
  ◌≡◌, refl, true, false, ◌&&◌, List, Option, none, some, arith, All, any, all, Bool-cases, inl,
  inr, any-false, Unless, unless, all-All,
}
use opencode_orchestrator.Prelude.Result.{Result, ok, err, ◌>>=◌, IfOk}
use opencode_orchestrator.Text.{Text, codes, text_eq, is_in}
use opencode_orchestrator.Value.{Value}
use opencode_orchestrator.Permission.Policy.{allow, Rule, PermissionPolicy}
use opencode_orchestrator.Permission.Edit.{edit_targets_allowed, edit_relative_targets}
use opencode_orchestrator.Permission.Options.{bash_is_indeterminate}
use opencode_orchestrator.Permission.Risk.{lowered, has_high_risk_action}
use opencode_orchestrator.Permission.Decide.{
  PermissionDecision, EvaluationError, asking, decide, matched_rule, external_decision,
  bash_supported, allowed_paths, edit_scope, edit_outside_contract, normalize_request_targets,
}
use opencode_orchestrator.Permission.Evaluate.{
  forbidden_actions, decide_permitted, decide_targets, decide_scope, decide_normalized,
  evaluate_targets,
}

-- an external directory is opened by a rule alone
decide-external :
    (policy : PermissionPolicy) (permission : Text) (matched : Option Rule)
    → (decide policy permission matched).action ≡ allow
    → text_eq permission (codes "external_directory") ≡ true
    → (rule : Rule) × (matched ≡ some rule) × (rule.action ≡ allow)
unfolding decide external_decision
decide-external policy permission none h e = ground arith
decide-external policy permission (some rule) h e = (rule, refl, ground arith)

module _ (lower : Text → Text) (policy : PermissionPolicy) (permission : Text) (targets : List Text)
    (contract : Value) where
  -- what the contract and the rules have let pass
  pub record IsPermitted (normalized : List Text) : Type 0 where
    pub unforbidden :
        IfOk
          (λ items. All (λ item. is_in item (lowered lower targets) ≡ false) items)
          (forbidden_actions lower contract)
    pub supported :
        Unless
          (text_eq permission (codes "bash"))
          (All (λ t. bash_supported t contract ≡ true) targets)
    pub declared : Unless (text_eq permission (codes "external_directory")) (
        (rule : Rule) × (matched_rule permission targets normalized policy.rules ≡ some rule)
        × (rule.action ≡ allow))

  decide_permitted-allow :
      (normalized : List Text) (forbidden : List Text)
      → (decide_permitted lower policy permission targets normalized contract forbidden).action
        ≡ allow
      → (any (λ item. is_in item (lowered lower targets)) forbidden ≡ false)
        × (text_eq permission (codes "bash") ≡ true
            → all (λ t. bash_supported t contract) targets ≡ true)
        × ((decide policy permission
              (matched_rule permission targets normalized policy.rules)).action
            ≡ allow)
  unfolding decide_permitted
  decide_permitted-allow normalized forbidden h = (ground arith, ground arith, ground arith)

  decide_targets-IsPermitted :
      (normalized : List Text)
      → IfOk
          (λ d. d.action ≡ allow → IsPermitted normalized)
          (decide_targets lower policy permission targets normalized contract)
  unfolding decide_targets
  decide_targets-IsPermitted normalized = go (forbidden_actions lower contract) refl
    where
      go :
          (r : Result EvaluationError (List Text))
          → forbidden_actions lower contract ≡ r
          → IfOk
              (λ d. d.action ≡ allow → IsPermitted normalized)
              (r >>= λ forbidden.
                ok (decide_permitted lower policy permission targets normalized contract forbidden))
      go (err e) q = tt
      go (ok forbidden) q = λ h.
          let (clean, safe, decided) = decide_permitted-allow normalized forbidden h in
          record {
            unforbidden =
                rw q (any-false (λ item. is_in item (lowered lower targets)) forbidden clean);
            supported =
                unless (text_eq permission (codes "bash"))
                  (λ b. all-All (λ t. bash_supported t contract) targets (safe b));
            declared =
                unless (text_eq permission (codes "external_directory"))
                  (decide-external policy permission _ decided);
          }

  module _ (worktree_path : Option Text) where
    edit_scope-inside :
        (addressed : List Text) {scoped : List Text}
        → edit_scope permission targets addressed contract worktree_path ≡ some scoped
        → text_eq permission (codes "edit") ≡ true
        → (edit_targets_allowed targets (allowed_paths contract) worktree_path ≡ true)
          × (edit_relative_targets targets worktree_path ≡ some scoped)
    unfolding edit_scope
    edit_scope-inside addressed h e = (ground arith, ground arith)

    -- every gate of an allowed request
    pub record IsGranted : Type 0 where
      pub low_risk : has_high_risk_action lower permission targets ≡ false
      pub determinate :
          Unless
            (text_eq permission (codes "bash"))
            (All (λ t. bash_is_indeterminate t ≡ false) targets)
      pub addressed : List Text
      pub addresses : normalize_request_targets permission targets ≡ some addressed
      pub scoped : List Text
      pub scopes : edit_scope permission targets addressed contract worktree_path ≡ some scoped
      pub inside : Unless (text_eq permission (codes "edit")) (
          (edit_targets_allowed targets (allowed_paths contract) worktree_path ≡ true)
          × (edit_relative_targets targets worktree_path ≡ some scoped))
      pub permitted : IsPermitted scoped

    abbrev pub Grants : (PermissionDecision → Type 0)
    Grants d = d.action ≡ allow → IsGranted

    abbrev Undecided : Type 0
    Undecided = (text_eq permission (codes "bash") && any bash_is_indeterminate targets) ≡ false

    decide_scope-Grants :
        (addressed : List Text)
        → Undecided
        → has_high_risk_action lower permission targets ≡ false
        → normalize_request_targets permission targets ≡ some addressed
        → IfOk Grants
            (decide_scope lower policy permission targets addressed contract worktree_path)
    unfolding decide_scope
    decide_scope-Grants addressed undecided low q =
        go (edit_scope permission targets addressed contract worktree_path) refl
      where
        determinate :
            text_eq permission (codes "bash") ≡ true
            → All (λ t. bash_is_indeterminate t ≡ false) targets
        determinate b = any-false bash_is_indeterminate targets (ground arith)

        grant :
            (scoped : List Text)
            → edit_scope permission targets addressed contract worktree_path ≡ some scoped
            → (r : Result EvaluationError PermissionDecision)
            → IfOk (λ d. d.action ≡ allow → IsPermitted scoped) r
            → IfOk Grants r
        grant scoped e (err x) k = tt
        grant scoped e (ok d) k = λ h. record {
          low_risk = low;
          determinate = unless (text_eq permission (codes "bash")) determinate;
          addressed = addressed;
          addresses = q;
          scoped = scoped;
          scopes = e;
          inside = unless (text_eq permission (codes "edit")) (edit_scope-inside addressed e);
          permitted = k h;
        }

        go :
            (o : Option (List Text))
            → edit_scope permission targets addressed contract worktree_path ≡ o
            → IfOk Grants (elim o [
              | none ↦ ok (asking edit_outside_contract)
              | some scoped ↦ decide_targets lower policy permission targets scoped contract
            ])
        go none e = λ h. cc
        go (some scoped) e = grant scoped e _ (decide_targets-IsPermitted scoped)

    decide_normalized-Grants :
        (o : Option (List Text))
        → Undecided
        → normalize_request_targets permission targets ≡ o
        → IfOk Grants (decide_normalized lower policy permission targets o contract worktree_path)
    unfolding decide_normalized
    decide_normalized-Grants none undecided q = λ h. cc
    decide_normalized-Grants (some addressed) undecided q =
        elim (Bool-cases (has_high_risk_action lower permission targets)) [
          | inl high ↦ rw high (λ h. cc)
          | inr low ↦ rw low (decide_scope-Grants addressed undecided low q)
        ]

    pub evaluate_targets-Grants :
        IfOk Grants (evaluate_targets lower policy permission targets contract worktree_path)
    unfolding evaluate_targets
    evaluate_targets-Grants =
        elim (Bool-cases (text_eq permission (codes "bash") && any bash_is_indeterminate targets)) [
          | inl unclear ↦ rw unclear (λ h. cc)
          | inr clear ↦ rw clear (decide_normalized-Grants _ clear refl)
        ]
