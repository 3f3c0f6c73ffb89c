-- ===== src/Cancellation.antt =====
-- src/opencode_orchestrator/cancellation.py: `CancellationToken` as a state, with one function for what
-- each of its operations does under the lock. A callback is a number. What an operation does after it
-- has let go of the lock, the calls of `_run_callback`, is a loop of its thread: `loops` has the
-- callbacks that each of these threads still has to call, `ran` those that were called, and a schedule
-- says who goes on next. Exceptions of a callback are dropped.
pub mod Settled
pub mod Examples
use opencode_orchestrator.Prelude.{
  ℕ, zero, suc, Bool, true, false, List, [], ◌∷◌, ◌++◌, Option, none, some,
}
use opencode_orchestrator.Text.{Text}

pub record CancellationToken : Type 0 where
  pub is_set : Bool
  pub reason : Option Text
  pub callbacks : List ℕ

unfoldable pub new_token : CancellationToken
new_token = record { is_set = false; reason = none; callbacks = [] }

-- `add_callback` under the lock; the answer is `run_now`
unfoldable pub add_callback : CancellationToken → ℕ → Bool × CancellationToken
add_callback t callback = elim t.is_set [
  | true ↦ (true, t)
  | false ↦ (false, record t { callbacks = t.callbacks ++ (callback ∷ []) })
]

-- `cancel` under the lock: the answer, the callbacks to run, and the token
unfoldable pub cancel : CancellationToken → Text → (Bool × List ℕ) × CancellationToken
cancel t reason = elim t.is_set [
  | true ↦ ((false, []), t)
  | false ↦ ((true, t.callbacks), record { is_set = true; reason = some reason; callbacks = [] })
]

-- the token, the threads that are past its lock, and the calls that were made
pub record World : Type 0 where
  pub token : CancellationToken
  pub loops : List (List ℕ)
  pub ran : List ℕ

unfoldable pub new_world : World
unfolding new_token
new_world = record { token = new_token; loops = []; ran = [] }

-- a thread takes the lock to add a callback or to cancel, or the `i`-th loop goes on
pub data Use : Type 0 where
  adds : ℕ → Use
  cancels : Text → Use
  runs : ℕ → Use

unfoldable pub start_loop : Bool → List ℕ → List (List ℕ) → List (List ℕ)
start_loop false callbacks loops = loops
start_loop true callbacks loops = callbacks ∷ loops

-- one round of the `i`-th loop, which ends when it has no callback left
unfoldable pub run_loop : ℕ → List (List ℕ) → List ℕ → List (List ℕ) × List ℕ
run_loop i [] ran = ([], ran)
run_loop zero ([] ∷ loops) ran = (loops, ran)
run_loop zero ((callback ∷ callbacks) ∷ loops) ran = (callbacks ∷ loops, ran ++ (callback ∷ []))
run_loop (suc i) (callbacks ∷ loops) ran =
    let (loops', ran') = run_loop i loops ran in (callbacks ∷ loops', ran')

unfoldable pub use_token : World → Use → World
use_token w (adds callback) =
    let (run_now, token) = add_callback w.token callback in
    record w { token = token; loops = start_loop run_now (callback ∷ []) w.loops }
use_token w (cancels reason) =
    let ((first, callbacks), token) = cancel w.token reason in
    record w { token = token; loops = start_loop first callbacks w.loops }
use_token w (runs i) =
    let (loops, ran) = run_loop i w.loops w.ran in record w { loops = loops; ran = ran }

unfoldable pub use_all : World → List Use → World
use_all w [] = w
use_all w (u ∷ us) = use_all (use_token w u) us
