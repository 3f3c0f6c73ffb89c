-- ===== src/Progress/Pending.antt =====
-- What `pending_tools` of progress.py gives.
use opencode_orchestrator.Prelude.{
  ℕ, ◌≡◌, true, ◌&&◌, ◌||◌, not, List, [], ◌∷◌, Option, none, some, All, IfSome, is_empty, if_ind,
  arith,
}
use opencode_orchestrator.Text.{Text, codes, text_eq, is_one_of, is_blank, strip}
use opencode_orchestrator.Text.Laws.Strip.{IsTrimmed, strip-IsTrimmed}
use opencode_orchestrator.Value.{Value, null, str, arr, obj, Items, nil, cons, Fields, get, to_list}
use opencode_orchestrator.Progress.{Timestamp, is_text}
use opencode_orchestrator.Progress.Tools.{
  pending_tool_statuses, PendingTool, nonblank_text, or_next, pending_status, tool_of,
  tool_timestamp, tool_in, tool_with, pending_tool, put_unique, put_some, insert_tool, tool_lt,
  sort_tools, tools_of, collect_parts, collect_list, collect_message, collect_messages,
  pending_tools,
}

-- a tool that runs, under names that are trimmed
pub record IsPending (t : PendingTool) : Type 0 where
  pub runs : is_one_of t.status pending_tool_statuses ≡ true
  pub name_IsTrimmed : IsTrimmed t.name
  pub part_id_IsTrimmed : IsTrimmed t.part_id
  pub call_id_IsTrimmed : IsTrimmed t.call_id

abbrev IsStarted : PendingTool × ℕ → Type 0
IsStarted (t, at) = IsPending t

nonblank_text-IsTrimmed : (o : Option Value) → IfSome IsTrimmed (nonblank_text o)
unfolding nonblank_text
nonblank_text-IsTrimmed none = tt
nonblank_text-IsTrimmed (some (str s)) =
    if_ind (IfSome IsTrimmed) (is_empty s || is_blank s || not (text_eq s (strip s))) _ _ (λ _. tt)
      (λ fine. strip-IsTrimmed s (ground arith) (ground arith))
nonblank_text-IsTrimmed (some null) = tt
nonblank_text-IsTrimmed (some _) = tt

tool_of-IsStarted :
    (status : Text) (name part_id call_id : Option Text) (started : Option Timestamp)
    → is_one_of status pending_tool_statuses ≡ true
    → IfSome IsTrimmed name
    → IfSome IsTrimmed part_id
    → IfSome IsTrimmed call_id
    → IfSome IsStarted (tool_of status name part_id call_id started)
unfolding tool_of
tool_of-IsStarted status (some n) (some p) (some c) (some (at, parsed)) runs a b d = record {
  runs = runs;
  name_IsTrimmed = a;
  part_id_IsTrimmed = b;
  call_id_IsTrimmed = d;
}
tool_of-IsStarted status none p c s runs a b d = tt
tool_of-IsStarted status (some n) none c s runs a b d = tt
tool_of-IsStarted status (some n) (some p) none s runs a b d = tt
tool_of-IsStarted status (some n) (some p) (some c) none runs a b d = tt

pending_status-runs :
    (o : Option Value) → IfSome (λ s. is_one_of s pending_tool_statuses ≡ true) (pending_status o)
unfolding pending_status
pending_status-runs none = tt
pending_status-runs (some (str s)) =
    if_ind (IfSome (λ t. is_one_of t pending_tool_statuses ≡ true))
      (is_one_of s pending_tool_statuses) _ _ (λ h. h) (λ _. tt)
pending_status-runs (some null) = tt
pending_status-runs (some _) = tt

module _ (P : PendingTool × ℕ → Type 0) where
  pub put_unique-All :
      (t : PendingTool × ℕ) (us : List (PendingTool × ℕ)) → P t → All P us → All P (put_unique t us)
  unfolding put_unique
  put_unique-All t [] h k = (h, tt)
  put_unique-All t (u ∷ us) h k =
      if_ind (All P) (text_eq u.0.part_id t.0.part_id && text_eq u.0.call_id t.0.call_id) _ _
        (λ _. (h, k.1)) (λ _. (k.0, put_unique-All t us h k.1))

  put_some-All :
      (o : Option (PendingTool × ℕ)) (us : List (PendingTool × ℕ))
      → IfSome P o
      → All P us
      → All P (put_some o us)
  put_some-All none us h k = k
  put_some-All (some t) us h k = put_unique-All t us h k

  pub insert_tool-All :
      (t : PendingTool × ℕ) (us : List (PendingTool × ℕ))
      → P t
      → All P us
      → All P (insert_tool t us)
  unfolding insert_tool
  insert_tool-All t [] h k = (h, tt)
  insert_tool-All t (u ∷ us) h k =
      if_ind (All P) (tool_lt u t) _ _ (λ _. (k.0, insert_tool-All t us h k.1)) (λ _. (h, k))

  pub sort_tools-All : (ts : List (PendingTool × ℕ)) → All P ts → All P (sort_tools ts)
  unfolding sort_tools
  sort_tools-All [] h = tt
  sort_tools-All (t ∷ ts) h = insert_tool-All t (sort_tools ts) h.0 (sort_tools-All ts h.1)

tools_of-All : (ts : List (PendingTool × ℕ)) → All IsStarted ts → All IsPending (tools_of ts)
tools_of-All [] h = tt
tools_of-All (t ∷ ts) h = (h.0, tools_of-All ts h.1)

module _ (parse_timestamp : Value → Option Timestamp) where
  tool_in-IsStarted :
      (part state : Fields) (o : Option Text)
      → IfSome (λ s. is_one_of s pending_tool_statuses ≡ true) o
      → IfSome IsStarted (tool_in parse_timestamp part state o)
  unfolding tool_in
  tool_in-IsStarted part state none h = tt
  tool_in-IsStarted part state (some status) h =
      tool_of-IsStarted status _ _ _ (tool_timestamp parse_timestamp (get (codes "time") state)) h
        (nonblank_text-IsTrimmed (or_next (get (codes "tool") part) (get (codes "name") part)))
        (nonblank_text-IsTrimmed (
          or_next (get (codes "id") part)
            (or_next (get (codes "partID") part) (get (codes "partId") part))))
        (nonblank_text-IsTrimmed (or_next (get (codes "callID") part) (get (codes "callId") part)))

  tool_with-IsStarted :
      (part : Fields) (o : Option Value) → IfSome IsStarted (tool_with parse_timestamp part o)
  unfolding tool_with
  tool_with-IsStarted part (some (obj state)) =
      tool_in-IsStarted part state (pending_status (get (codes "status") state))
        (pending_status-runs (get (codes "status") state))
  tool_with-IsStarted part none = tt
  tool_with-IsStarted part (some null) = tt
  tool_with-IsStarted part (some _) = tt

  pending_tool-IsStarted : (v : Value) → IfSome IsStarted (pending_tool parse_timestamp v)
  unfolding pending_tool
  pending_tool-IsStarted (obj part) =
      if_ind (IfSome IsStarted) (is_text (get (codes "type") part) (codes "tool")) _ _
        (λ _. tool_with-IsStarted part (get (codes "state") part)) (λ _. tt)
  pending_tool-IsStarted null = tt
  pending_tool-IsStarted _ = tt

  collect_parts-All :
      (vs : Items) (us : List (PendingTool × ℕ))
      → All IsStarted us
      → All IsStarted (collect_parts parse_timestamp vs us)
  unfolding collect_parts
  collect_parts-All nil us h = h
  collect_parts-All (cons v vs) us h =
      collect_parts-All vs (put_some (pending_tool parse_timestamp v) us)
        (put_some-All IsStarted (pending_tool parse_timestamp v) us (pending_tool-IsStarted v) h)

  collect_list-All :
      (o : Option Value) (us : List (PendingTool × ℕ))
      → All IsStarted us
      → All IsStarted (collect_list parse_timestamp o us)
  unfolding collect_list
  collect_list-All (some (arr vs)) us h = collect_parts-All vs us h
  collect_list-All none us h = h
  collect_list-All (some null) us h = h
  collect_list-All (some _) us h = h

  collect_message-All :
      (v : Value) (us : List (PendingTool × ℕ))
      → All IsStarted us
      → All IsStarted (collect_message parse_timestamp v us)
  unfolding collect_message
  collect_message-All (obj message) us h = collect_list-All (get (codes "parts") message) us h
  collect_message-All null us h = h
  collect_message-All _ us h = h

  collect_messages-All :
      (ms : List Value) (us : List (PendingTool × ℕ))
      → All IsStarted us
      → All IsStarted (collect_messages parse_timestamp ms us)
  unfolding collect_messages
  collect_messages-All [] us h = h
  collect_messages-All (m ∷ ms) us h =
      collect_messages-All ms (collect_message parse_timestamp m us) (collect_message-All m us h)

-- Each tool that is reported as pending runs: its status is one of the five pending ones, and its name
-- and its two ids are texts that begin and end with a character that is no space.
pub pending_tools-All :
    (parse_timestamp : Value → Option Timestamp) (messages : Value)
    → All IsPending (pending_tools parse_timestamp messages)
unfolding pending_tools
pending_tools-All parse_timestamp (arr messages) =
    tools_of-All (sort_tools (collect_messages parse_timestamp (to_list messages) [])) (
      sort_tools-All IsStarted (collect_messages parse_timestamp (to_list messages) [])
        (collect_messages-All parse_timestamp (to_list messages) [] tt))
pending_tools-All parse_timestamp null = tt
pending_tools-All parse_timestamp _ = tt
