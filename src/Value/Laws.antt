-- ===== src/Value/Laws.antt =====
-- Laws of reading and writing the keys of a `dict`.
use opencode_orchestrator.Prelude.{◌≡◌, refl, ap, List, [], ◌∷◌, some, arith, if◌then◌else◌}
use opencode_orchestrator.Text.{Text, text_eq}
use opencode_orchestrator.Text.Laws.{text_eq_iff}
use opencode_orchestrator.Value.{Value, to_list, of_list, Fields, end, field, get, put}

-- A write changes its own key.
pub get-put :
    (k j : Text) (v : Value) (fs : Fields)
    → get j (put k v fs) ≡ (if text_eq k j then some v else get j fs)
unfolding get put
get-put k j v end = refl
get-put k j v (field i w fs) =
    ground (arith, text_eq_iff i k, text_eq_iff i j, text_eq_iff k j, get-put k j v fs)

pub to_list-of_list : (vs : List Value) → to_list (of_list vs) ≡ vs
to_list-of_list [] = refl
to_list-of_list (v ∷ vs) = ap (λ ws. v ∷ ws) (to_list-of_list vs)
