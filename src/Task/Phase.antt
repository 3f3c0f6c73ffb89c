-- ===== src/Task/Phase.antt =====
-- `Phase` and `TRANSITIONS` of task_state.py. In a state a phase is a text; a text that is no phase
-- has no transitions.
pub mod Graph
use opencode_orchestrator.Prelude.{Bool, List, [], ◌∷◌, Option, none, some, any, if◌then◌else◌}
use opencode_orchestrator.Text.{Text, codes, text_eq}
use opencode_orchestrator.Value.{Value, str}

pub data Phase : Type 0 where
  draft risk_check awaiting_approval preparing dispatched running needs_input : Phase
  permission_wait paused stalled failed collecting reviewing revision_requested : Phase
  passed awaiting_integration cancelled : Phase

abbrev pub phase_text : Phase → Text
phase_text draft = codes "DRAFT"
phase_text risk_check = codes "RISK_CHECK"
phase_text awaiting_approval = codes "AWAITING_APPROVAL"
phase_text preparing = codes "PREPARING"
phase_text dispatched = codes "DISPATCHED"
phase_text running = codes "RUNNING"
phase_text needs_input = codes "NEEDS_INPUT"
phase_text permission_wait = codes "PERMISSION_WAIT"
phase_text paused = codes "PAUSED"
phase_text stalled = codes "STALLED"
phase_text failed = codes "FAILED"
phase_text collecting = codes "COLLECTING"
phase_text reviewing = codes "REVIEWING"
phase_text revision_requested = codes "REVISION_REQUESTED"
phase_text passed = codes "PASSED"
phase_text awaiting_integration = codes "AWAITING_INTEGRATION"
phase_text cancelled = codes "CANCELLED"

-- the rows of the table
abbrev pub successors : Phase → List Phase
successors draft = risk_check ∷ []
successors risk_check = awaiting_approval ∷ preparing ∷ failed ∷ []
successors awaiting_approval = preparing ∷ cancelled ∷ []
successors preparing = dispatched ∷ failed ∷ cancelled ∷ []
successors dispatched = running ∷ paused ∷ failed ∷ cancelled ∷ []
successors running =
    needs_input ∷ permission_wait ∷ paused ∷ stalled ∷ failed ∷ collecting ∷ cancelled ∷ []
successors needs_input = running ∷ failed ∷ cancelled ∷ []
successors permission_wait = running ∷ failed ∷ cancelled ∷ []
successors paused = running ∷ stalled ∷ failed ∷ cancelled ∷ []
successors stalled = running ∷ needs_input ∷ permission_wait ∷ failed ∷ collecting ∷ cancelled ∷ []
successors collecting = reviewing ∷ failed ∷ []
successors reviewing = revision_requested ∷ passed ∷ failed ∷ []
successors revision_requested = running ∷ failed ∷ cancelled ∷ []
successors passed = awaiting_integration ∷ []
successors awaiting_integration = []
successors failed = []
successors cancelled = []

abbrev pub phases : List Phase
phases =
    draft ∷ risk_check ∷ awaiting_approval ∷ preparing ∷ dispatched ∷ running ∷ needs_input
    ∷ permission_wait ∷ paused ∷ stalled ∷ failed ∷ collecting ∷ reviewing ∷ revision_requested
    ∷ passed ∷ awaiting_integration ∷ cancelled ∷ []

unfoldable pub find_phase : Text → List Phase → Option Phase
find_phase s [] = none
find_phase s (p ∷ ps) = if text_eq (phase_text p) s then some p else find_phase s ps

unfoldable pub phase_of : Text → Option Phase
phase_of s = find_phase s phases

abbrev pub row : Option Phase → List Phase
row none = []
row (some p) = successors p

-- `phase in TRANSITIONS.get(current, set())`
unfoldable pub may_follow : Text → Text → Bool
may_follow current phase = any (λ p. text_eq (phase_text p) phase) (row (phase_of current))
