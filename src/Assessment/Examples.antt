-- ===== src/Assessment/Examples.antt =====
-- Runs of policy.py on small inputs.
use opencode_orchestrator.Prelude.{◌≡◌, false, List, [], ◌∷◌, any, ◌↔◌}
use opencode_orchestrator.Text.{Text, codes, texts}
use opencode_orchestrator.Text.Fnmatch.{fnmatchcase}
use opencode_orchestrator.Value.{pos}
use opencode_orchestrator.Assessment.{Change, validate_allowed_paths}
use opencode_orchestrator.Assessment.Laws.{In, validate_allowed_paths_iff}

abbrev small_change : Change
small_change = record {
  file_count = pos 2;
  line_count = pos 301;
  crosses_modules = false;
  changes_interface = false;
  changes_dependencies = false;
  high_risk_actions = [];
}

abbrev changed : List Text
changed = texts ("src/b.py" ∷ "docs/a.md" ∷ "src/b.py" ∷ [])

validate_allowed_paths_iff_example :
    In (codes "docs/a.md") (validate_allowed_paths changed (texts ("src/*" ∷ []))) ↔ (
      In (codes "docs/a.md") changed
      × (any (fnmatchcase (codes "docs/a.md")) (texts ("src/*" ∷ [])) ≡ false))
validate_allowed_paths_iff_example =
    validate_allowed_paths_iff changed (texts ("src/*" ∷ [])) (codes "docs/a.md")
