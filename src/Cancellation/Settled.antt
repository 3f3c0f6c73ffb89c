-- ===== src/Cancellation/Settled.antt =====
-- What becomes of the callbacks of a token in cancellation.py, however its threads are scheduled.
use mathlib.Core.List.{append_assoc, append-nil}
use opencode_orchestrator.Prelude.{
  ℕ, zero, suc, ◌+◌, ◌≡◌, refl, ◌↔◌, true, false, List, [], ◌∷◌, ◌++◌, Option, none, some, ◌==◌,
  if◌then◌else◌, arith, ap, sym, ◌∙◌, subst,
}
use opencode_orchestrator.Text.{Text}
use opencode_orchestrator.Cancellation.{
  add_callback, cancel, World, new_world, Use, adds, cancels, runs, start_loop, run_loop, use_token,
  use_all,
}

abbrev pub count : ℕ → List ℕ → ℕ
count c [] = 0
count c (x ∷ xs) = (if x == c then 1 else 0) + count c xs

abbrev pub count_loops : ℕ → List (List ℕ) → ℕ
count_loops c [] = 0
count_loops c (l ∷ ls) = count c l + count_loops c ls

-- the callbacks that were added, and the reason of the first cancellation
abbrev pub added : List Use → List ℕ
added [] = []
added (adds x ∷ us) = x ∷ added us
added (cancels r ∷ us) = added us
added (runs i ∷ us) = added us

abbrev pub first_reason : List Use → Option Text
first_reason [] = none
first_reason (adds x ∷ us) = first_reason us
first_reason (cancels r ∷ us) = some r
first_reason (runs i ∷ us) = first_reason us

-- a token that nobody has cancelled: the callbacks wait in their order, and none was called
abbrev pub open_world : List ℕ → World
open_world callbacks = record {
  token = record { is_set = false; reason = none; callbacks = callbacks };
  loops = [];
  ran = [];
}

-- a token that was cancelled, on which no callback waits
abbrev pub closed_world : Text → List (List ℕ) → List ℕ → World
closed_world reason loops ran = record {
  token = record { is_set = true; reason = some reason; callbacks = [] };
  loops = loops;
  ran = ran;
}

-- every callback that was added waits; or, after a cancellation, was called or is in one of the loops,
-- as often as it was added
abbrev pub IsSettled : Option Text → List ℕ → World → Type 0
IsSettled none callbacks w = w ≡ open_world callbacks
IsSettled (some reason) callbacks w =
    (loops : List (List ℕ)) × (ran : List ℕ) × (w ≡ closed_world reason loops ran)
    × ((c : ℕ) → count c ran + count_loops c loops ≡ count c callbacks)

count-append : (c : ℕ) (xs ys : List ℕ) → count c (xs ++ ys) ≡ count c xs + count c ys
count-append c [] ys = omega arith
count-append c (x ∷ xs) ys = omega (arith, count-append c xs ys)

run_loop-count :
    (c i : ℕ) (loops : List (List ℕ)) (ran : List ℕ)
    → count c (run_loop i loops ran).1 + count_loops c (run_loop i loops ran).0
      ≡ count c ran + count_loops c loops
unfolding run_loop
run_loop-count c i [] ran = refl
run_loop-count c zero ([] ∷ loops) ran = omega arith
run_loop-count c zero ((x ∷ xs) ∷ loops) ran = omega (arith, count-append c ran (x ∷ []))
run_loop-count c (suc i) (l ∷ loops) ran = omega (arith, run_loop-count c i loops ran)

use_all_closed :
    (reason : Text) (callbacks : List ℕ) (loops : List (List ℕ)) (ran : List ℕ) (us : List Use)
    → ((c : ℕ) → count c ran + count_loops c loops ≡ count c callbacks)
    → IsSettled (some reason) (callbacks ++ added us) (use_all (closed_world reason loops ran) us)
unfolding use_all use_token add_callback cancel start_loop
use_all_closed reason callbacks loops ran [] h =
    (loops, ran, refl, λ c. h c ∙ ap (count c) (sym (append-nil callbacks)))
use_all_closed reason callbacks loops ran (adds x ∷ us) h =
    subst (λ l. IsSettled (some reason) l (use_all (closed_world reason ((x ∷ []) ∷ loops) ran) us))
      (append_assoc callbacks (x ∷ []) (added us))
      (use_all_closed reason (callbacks ++ (x ∷ [])) ((x ∷ []) ∷ loops) ran us
        (λ c. omega (arith, h c, count-append c callbacks (x ∷ []))))
use_all_closed reason callbacks loops ran (cancels late ∷ us) h =
    use_all_closed reason callbacks loops ran us h
use_all_closed reason callbacks loops ran (runs i ∷ us) h =
    use_all_closed reason callbacks (run_loop i loops ran).0 (run_loop i loops ran).1 us
      (λ c. run_loop-count c i loops ran ∙ h c)

use_all_open :
    (callbacks : List ℕ) (us : List Use)
    → IsSettled (first_reason us) (callbacks ++ added us) (use_all (open_world callbacks) us)
unfolding use_all use_token add_callback cancel start_loop run_loop
use_all_open callbacks [] = ap open_world (sym (append-nil callbacks))
use_all_open callbacks (adds x ∷ us) =
    subst (λ l. IsSettled (first_reason us) l (use_all (open_world (callbacks ++ (x ∷ []))) us))
      (append_assoc callbacks (x ∷ []) (added us)) (use_all_open (callbacks ++ (x ∷ [])) us)
use_all_open callbacks (cancels reason ∷ us) =
    use_all_closed reason callbacks (callbacks ∷ []) [] us (λ c. omega arith)
use_all_open callbacks (runs i ∷ us) = use_all_open callbacks us

-- Let threads add callbacks, cancel, and call callbacks after they have let go of the lock, in any order.
-- While nobody has cancelled, all callbacks that were added wait, in their order, and none was called.
-- After a cancellation the token keeps the reason of the first one, no callback waits, and the calls
-- that were made together with those that the threads still have to make are exactly the callbacks
-- that were added, each as often as it was added.
pub use_all-IsSettled :
    (us : List Use) → IsSettled (first_reason us) (added us) (use_all new_world us)
unfolding new_world
use_all-IsSettled us = use_all_open [] us

first_cancel :
    (o : Option Text) (callbacks : List ℕ) (w : World) (reason : Text)
    → IsSettled o callbacks w
    → ((cancel w.token reason).0.0 ≡ true) ↔ (o ≡ none)
unfolding cancel
first_cancel none callbacks w reason e = (λ h. refl, λ h. rw e refl)
first_cancel (some r) callbacks w reason (loops, ran, e, _) =
    let set : w.token.is_set ≡ true = ap (λ (v : World). v.token.is_set) e in
    (λ h. ground arith, λ h. cc)

-- A cancellation answers that it was the one that cancelled exactly if there was none before it.
pub cancel_first :
    (us : List Use) (reason : Text)
    → ((cancel (use_all new_world us).token reason).0.0 ≡ true) ↔ (first_reason us ≡ none)
cancel_first us reason =
    first_cancel (first_reason us) (added us) (use_all new_world us) reason (use_all-IsSettled us)

-- the rounds that the loops still need
abbrev rounds : List (List ℕ) → List Use
rounds [] = []
rounds ([] ∷ loops) = runs 0 ∷ rounds loops
rounds ((c ∷ callbacks) ∷ loops) = runs 0 ∷ rounds (callbacks ∷ loops)

abbrev rest_ran : List (List ℕ) → List ℕ → List ℕ
rest_ran [] ran = ran
rest_ran ([] ∷ loops) ran = rest_ran loops ran
rest_ran ((c ∷ callbacks) ∷ loops) ran = rest_ran (callbacks ∷ loops) (ran ++ (c ∷ []))

-- a round of a loop, and no new use of the token
abbrev pub AreRounds : List Use → Type 0
AreRounds [] = Unit
AreRounds (runs i ∷ us) = AreRounds us
AreRounds (_ ∷ us) = ⊥
