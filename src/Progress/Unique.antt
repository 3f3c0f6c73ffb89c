-- ===== src/Progress/Unique.antt =====
-- `pending_tools` of progress.py reports no tool twice: `unique` has one entry for a pair of ids.
use opencode_orchestrator.Prelude.{
  ℕ, ◌≡◌, sym, subst, ◌∙◌, true, false, ◌&&◌, List, [], ◌∷◌, Option, none, some, All, if_ind,
  &&-true, arith,
}
use opencode_orchestrator.Text.{text_eq}
use opencode_orchestrator.Text.Laws.{text_eq-eq, text_eq_refl}
use opencode_orchestrator.Value.{Value, null, arr, obj, Items, nil, cons, get, to_list}
use opencode_orchestrator.Text.{codes}
use opencode_orchestrator.Progress.{Timestamp}
use opencode_orchestrator.Progress.Tools.{
  PendingTool, pending_tool, put_unique, put_some, insert_tool, tool_lt, sort_tools, tools_of,
  collect_parts, collect_list, collect_message, collect_messages, pending_tools,
}
use opencode_orchestrator.Progress.Pending.{put_unique-All, insert_tool-All, sort_tools-All}

-- two tools with different ids
abbrev pub Differ : PendingTool → PendingTool → Type 0
Differ t u = ¬ ((t.part_id ≡ u.part_id) × (t.call_id ≡ u.call_id))

-- no two tools of the list have the same part id and the same call id
abbrev pub AreDistinct : List PendingTool → Type 0
AreDistinct [] = Unit
AreDistinct (t ∷ ts) = All (Differ t) ts × AreDistinct ts

abbrev Apart : PendingTool × ℕ → PendingTool × ℕ → Type 0
Apart (t, a) (u, b) = Differ t u

abbrev AreApart : List (PendingTool × ℕ) → Type 0
AreApart [] = Unit
AreApart (t ∷ ts) = All (Apart t) ts × AreApart ts

All-Apart :
    (t u : PendingTool × ℕ) (us : List (PendingTool × ℕ))
    → u.0.part_id ≡ t.0.part_id
    → u.0.call_id ≡ t.0.call_id
    → All (Apart u) us
    → All (Apart t) us
All-Apart t u [] p c h = tt
All-Apart t u (v ∷ vs) p c h = (λ (q, d). h.0 (p ∙ q, c ∙ d), All-Apart t u vs p c h.1)

missed :
    (t u : PendingTool × ℕ)
    → (text_eq u.0.part_id t.0.part_id && text_eq u.0.call_id t.0.call_id) ≡ false
    → Apart u t
missed t u h (p, c) =
    let same_part : text_eq u.0.part_id t.0.part_id ≡ true =
      subst (λ s. text_eq u.0.part_id s ≡ true) p (text_eq_refl u.0.part_id) in
    let same_call : text_eq u.0.call_id t.0.call_id ≡ true =
      subst (λ s. text_eq u.0.call_id s ≡ true) c (text_eq_refl u.0.call_id) in
    ground arith

put_unique-AreApart :
    (t : PendingTool × ℕ) (us : List (PendingTool × ℕ)) → AreApart us → AreApart (put_unique t us)
unfolding put_unique
put_unique-AreApart t [] h = (tt, tt)
put_unique-AreApart t (u ∷ us) h =
    if_ind AreApart (text_eq u.0.part_id t.0.part_id && text_eq u.0.call_id t.0.call_id) _ _
      (λ hit.
        let (p, c) =
          &&-true (text_eq u.0.part_id t.0.part_id) (text_eq u.0.call_id t.0.call_id) hit in
        (All-Apart t u us (text_eq-eq _ _ p) (text_eq-eq _ _ c) h.0, h.1))
      (λ miss. (put_unique-All (Apart u) t us (missed t u miss) h.0, put_unique-AreApart t us h.1))

put_some-AreApart :
    (o : Option (PendingTool × ℕ)) (us : List (PendingTool × ℕ))
    → AreApart us
    → AreApart (put_some o us)
put_some-AreApart none us h = h
put_some-AreApart (some t) us h = put_unique-AreApart t us h

insert_tool-AreApart :
    (t : PendingTool × ℕ) (us : List (PendingTool × ℕ))
    → All (Apart t) us
    → AreApart us
    → AreApart (insert_tool t us)
unfolding insert_tool
insert_tool-AreApart t [] h k = (tt, tt)
insert_tool-AreApart t (u ∷ us) h k =
    if_ind AreApart (tool_lt u t) _ _
      (λ _. (
        insert_tool-All (Apart u) t us (λ (p, c). h.0 (sym p, sym c)) k.0,
        insert_tool-AreApart t us h.1 k.1,
      ))
      (λ _. (h, k))

sort_tools-AreApart : (ts : List (PendingTool × ℕ)) → AreApart ts → AreApart (sort_tools ts)
unfolding sort_tools
sort_tools-AreApart [] h = tt
sort_tools-AreApart (t ∷ ts) h =
    insert_tool-AreApart t (sort_tools ts) (sort_tools-All (Apart t) ts h.0)
      (sort_tools-AreApart ts h.1)

tools_of-All :
    (t : PendingTool × ℕ) (us : List (PendingTool × ℕ))
    → All (Apart t) us
    → All (Differ t.0) (tools_of us)
tools_of-All t [] h = tt
tools_of-All t (u ∷ us) h = (h.0, tools_of-All t us h.1)

tools_of-AreDistinct : (ts : List (PendingTool × ℕ)) → AreApart ts → AreDistinct (tools_of ts)
tools_of-AreDistinct [] h = tt
tools_of-AreDistinct (t ∷ ts) h = (tools_of-All t ts h.0, tools_of-AreDistinct ts h.1)

module _ (parse_timestamp : Value → Option Timestamp) where
  collect_parts-AreApart :
      (vs : Items) (us : List (PendingTool × ℕ))
      → AreApart us
      → AreApart (collect_parts parse_timestamp vs us)
  unfolding collect_parts
  collect_parts-AreApart nil us h = h
  collect_parts-AreApart (cons v vs) us h =
      collect_parts-AreApart vs (put_some (pending_tool parse_timestamp v) us)
        (put_some-AreApart (pending_tool parse_timestamp v) us h)

  collect_list-AreApart :
      (o : Option Value) (us : List (PendingTool × ℕ))
      → AreApart us
      → AreApart (collect_list parse_timestamp o us)
  unfolding collect_list
  collect_list-AreApart (some (arr vs)) us h = collect_parts-AreApart vs us h
  collect_list-AreApart none us h = h
  collect_list-AreApart (some null) us h = h
  collect_list-AreApart (some _) us h = h

  collect_message-AreApart :
      (v : Value) (us : List (PendingTool × ℕ))
      → AreApart us
      → AreApart (collect_message parse_timestamp v us)
  unfolding collect_message
  collect_message-AreApart (obj message) us h =
      collect_list-AreApart (get (codes "parts") message) us h
  collect_message-AreApart null us h = h
  collect_message-AreApart _ us h = h

  collect_messages-AreApart :
      (ms : List Value) (us : List (PendingTool × ℕ))
      → AreApart us
      → AreApart (collect_messages parse_timestamp ms us)
  unfolding collect_messages
  collect_messages-AreApart [] us h = h
  collect_messages-AreApart (m ∷ ms) us h =
      collect_messages-AreApart ms (collect_message parse_timestamp m us)
        (collect_message-AreApart m us h)

-- No tool is reported twice: of the tools that are reported as pending, no two have both the same part
-- id and the same call id, whatever the messages repeat.
pub pending_tools-AreDistinct :
    (parse_timestamp : Value → Option Timestamp) (messages : Value)
    → AreDistinct (pending_tools parse_timestamp messages)
unfolding pending_tools
pending_tools-AreDistinct parse_timestamp (arr messages) =
    tools_of-AreDistinct (sort_tools (collect_messages parse_timestamp (to_list messages) [])) (
      sort_tools-AreApart (collect_messages parse_timestamp (to_list messages) [])
        (collect_messages-AreApart parse_timestamp (to_list messages) [] tt))
pending_tools-AreDistinct parse_timestamp null = tt
pending_tools-AreDistinct parse_timestamp _ = tt
