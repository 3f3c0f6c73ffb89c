-- ===== src/Permission/Decide/LastMatch.antt =====
-- The loop over the rules in `evaluate_permission` of permission_policy.py: the last match wins.
use opencode_orchestrator.Prelude.{
  ◌≡◌, refl, ap, Bool, true, false, List, [], ◌∷◌, ◌++◌, Option, none, some, All, inl, inr, ◌⊎◌,
  if◌then◌else◌, any,
}
use opencode_orchestrator.Text.{Text}
use opencode_orchestrator.Permission.Policy.{Rule}
use opencode_orchestrator.Permission.Decide.{
  last_match, matched_rule, rule_matches, rule_target_variants,
}

-- `rule` is the last element of the list that passes the test
pub record IsLast (p : Rule → Bool) (rules : List Rule) (rule : Rule) : Type 0 where
  pub before : List Rule
  pub after : List Rule
  pub place : rules ≡ before ++ (rule ∷ after)
  pub passes : p rule ≡ true
  pub later_fail : All (λ r. p r ≡ false) after

-- either no rule passes and the start value stays, or the last one that passes is the result
abbrev Outcome : (Rule → Bool) → Option Rule → List Rule → Option Rule → Type 0
Outcome p start rules out =
    (All (λ r. p r ≡ false) rules × (out ≡ start))
    ⊎ ((rule : Rule) × (out ≡ some rule) × IsLast p rules rule)

last_match-Outcome :
    (p : Rule → Bool) (start : Option Rule) (rules : List Rule)
    → Outcome p start rules (last_match p start rules)
unfolding last_match
last_match-Outcome p start [] = inl (tt, refl)
last_match-Outcome p start (r ∷ rules) =
    step (p r) refl (last_match-Outcome p (some r) rules) (last_match-Outcome p start rules)
  where
    passed :
        p r ≡ true
        → Outcome p (some r) rules (last_match p (some r) rules)
        → Outcome p start (r ∷ rules) (last_match p (some r) rules)
    passed here (inl (fail, e)) = inr (
      r,
      e,
      record { before = []; after = rules; place = refl; passes = here; later_fail = fail },
    )
    passed here (inr (rule, e, l)) = inr (
      rule,
      e,
      record {
        before = r ∷ l.before;
        after = l.after;
        place = ap (λ t. r ∷ t) l.place;
        passes = l.passes;
        later_fail = l.later_fail;
      },
    )

    failed :
        p r ≡ false
        → Outcome p start rules (last_match p start rules)
        → Outcome p start (r ∷ rules) (last_match p start rules)
    failed miss (inl (fail, e)) = inl ((miss, fail), e)
    failed miss (inr (rule, e, l)) = inr (
      rule,
      e,
      record {
        before = r ∷ l.before;
        after = l.after;
        place = ap (λ t. r ∷ t) l.place;
        passes = l.passes;
        later_fail = l.later_fail;
      },
    )

    step :
        (b : Bool)
        → p r ≡ b
        → Outcome p (some r) rules (last_match p (some r) rules)
        → Outcome p start rules (last_match p start rules)
        → Outcome p start (r ∷ rules) (last_match p (if b then some r else start) rules)
    step true here o _ = passed here o
    step false miss _ o = failed miss o

-- The rule that decides is the last rule of the policy that matches the request's targets, in one of
-- their spellings; there is none exactly where no rule matches.
pub matched_rule-IsLast :
    (permission : Text) (targets normalized : List Text) (rules : List Rule)
    → let test = λ (r : Rule).
      any (rule_matches r permission) (rule_target_variants permission targets normalized) in
      (All (λ r. test r ≡ false) rules × (matched_rule permission targets normalized rules ≡ none))
      ⊎ ((rule : Rule) × (matched_rule permission targets normalized rules ≡ some rule)
          × IsLast test rules rule)
unfolding matched_rule
matched_rule-IsLast permission targets normalized rules =
    last_match-Outcome
      (λ r. any (rule_matches r permission) (rule_target_variants permission targets normalized))
      none rules
