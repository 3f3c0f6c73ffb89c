-- ===== src/Task/Ids.antt =====
-- The ids that `new_task_id` of task_state.py makes are ones that `TaskStore` accepts.
use opencode_orchestrator.Prelude.{
  ℕ, ◌≡◌, refl, true, false, [], ◌∷◌, Option, arith, All-append, ◌==◌,
}
use opencode_orchestrator.Prelude.Result.{ok}
use opencode_orchestrator.Text.{Text, codes, is_in, starts_with}
use opencode_orchestrator.Text.Laws.{Lacks}
use opencode_orchestrator.Task.States.{new_task_id, text_or}
use opencode_orchestrator.Task.Store.{task_dir}

is_in_of_Lacks : (c : ℕ) (part s : Text) → Lacks c s → is_in (c ∷ part) s ≡ false
unfolding is_in starts_with
is_in_of_Lacks c part [] h = refl
is_in_of_Lacks c part (b ∷ s) h = ground (arith, h.0, is_in_of_Lacks c part s h.1)

new_task_id-Lacks :
    (c : ℕ) (clock token : Text) (now entropy : Option Text)
    → Lacks c (codes "oc--")
    → Lacks c (text_or now clock)
    → Lacks c (text_or entropy token)
    → Lacks c (new_task_id clock token now entropy)
unfolding new_task_id
new_task_id-Lacks c clock token now entropy (o, (h, (dash, (dash', _)))) a b =
    (o, (h, (dash, All-append (λ d. (d == c) ≡ false) (text_or now clock) _ a (dash', b))))

new_task_id-prefix :
    (clock token : Text) (now entropy : Option Text)
    → starts_with (codes "oc-") (new_task_id clock token now entropy) ≡ true
unfolding new_task_id starts_with
new_task_id-prefix clock token now entropy = refl

-- A new id, made of a time and a suffix without a slash or a dot, whether they are given or are the
-- defaults, is one that the store accepts, and names its own directory.
pub task_dir-new_task_id :
    (clock token : Text) (now entropy : Option Text)
    → Lacks b'/' (text_or now clock)
    → Lacks b'/' (text_or entropy token)
    → Lacks b'.' (text_or now clock)
    → Lacks b'.' (text_or entropy token)
    → task_dir (new_task_id clock token now entropy) ≡ ok (new_task_id clock token now entropy)
unfolding task_dir
task_dir-new_task_id clock token now entropy a b c d =
    let plain =
      new_task_id-Lacks b'/' clock token now entropy (refl, (refl, (refl, (refl, tt)))) a b in
    let dotless =
      new_task_id-Lacks b'.' clock token now entropy (refl, (refl, (refl, (refl, tt)))) c d in
    rw (
      new_task_id-prefix clock token now entropy,
      is_in_of_Lacks b'/' [] _ plain,
      is_in_of_Lacks b'.' (codes ".") _ dotless,
    )
