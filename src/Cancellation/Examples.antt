-- ===== src/Cancellation/Examples.antt =====
-- Runs of cancellation.py on small inputs.
use opencode_orchestrator.Prelude.{◌≡◌, refl, List, [], ◌∷◌, some}
use opencode_orchestrator.Text.{codes}
use opencode_orchestrator.Cancellation.{
  add_callback, cancel, new_world, Use, adds, cancels, runs, start_loop, run_loop, use_token,
  use_all,
}
use opencode_orchestrator.Cancellation.Settled.{IsSettled, use_all-IsSettled}

-- the callback 3 is called before the loop of the cancellation has called 1 and 2
abbrev uses : List Use
uses =
    adds 1
    ∷ adds 2
    ∷ cancels (codes "user")
    ∷ adds 3
    ∷ runs 0
    ∷ cancels (codes "late")
    ∷ runs 1
    ∷ []

use_all-order : (use_all new_world uses).ran ≡ 3 ∷ 1 ∷ []
unfolding new_world add_callback cancel start_loop run_loop use_token use_all
use_all-order = refl

use_all-IsSettled_example :
    IsSettled (some (codes "user")) (1 ∷ 2 ∷ 3 ∷ []) (use_all new_world uses)
use_all-IsSettled_example = use_all-IsSettled uses
