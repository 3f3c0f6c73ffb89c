-- ===== src/Progress/Turns.antt =====
-- `last_turn_finished` of progress.py: what a transcript looks like when it says so.
use mathlib.Core.List.{reverse, reverse-append, reverse-cons, reverse-reverse, append_assoc}
use opencode_orchestrator.Prelude.{
  ◌≡◌, refl, sym, ap, ◌∙◌, Bool, true, false, not, List, [], ◌∷◌, ◌++◌, Option, none, some, All,
  if◌then◌else◌,
}
use opencode_orchestrator.Text.{codes}
use opencode_orchestrator.Text.Laws.{All-reverse}
use opencode_orchestrator.Value.{Value, null, bool, int, float, str, arr, obj, Fields, get, of_list}
use opencode_orchestrator.Value.Laws.{to_list-of_list}
use opencode_orchestrator.Progress.{
  is_text, message_info, is_completed, has_step_finish, has_parts, turn_of, message_turn, turn_or,
  finished_from, last_turn_finished,
}

-- a message of the assistant that is completed, with the end of a step
abbrev pub IsFinished : Value → Type 0
IsFinished (obj message) =
    let info = message_info message (get (codes "info") message) in
    (is_text (get (codes "role") info) (codes "assistant") ≡ true)
    × (is_completed info ≡ true)
    × (has_step_finish (get (codes "parts") message) ≡ true)
IsFinished _ = ⊥

-- a message of the assistant that is not completed, and has no parts yet
abbrev pub IsUnstarted : Value → Type 0
IsUnstarted (obj message) =
    let info = message_info message (get (codes "info") message) in
    (is_text (get (codes "role") info) (codes "assistant") ≡ true)
    × (is_completed info ≡ false)
    × (has_parts (get (codes "parts") message) ≡ false)
IsUnstarted _ = ⊥

turn_of-true :
    (info message : Fields)
    → turn_of info message ≡ some true
    → (is_text (get (codes "role") info) (codes "assistant") ≡ true)
      × (is_completed info ≡ true)
      × (has_step_finish (get (codes "parts") message) ≡ true)
unfolding turn_of
turn_of-true info message h =
    cases (is_text (get (codes "role") info) (codes "assistant")) (is_completed info)
      (has_parts (get (codes "parts") message)) (has_step_finish (get (codes "parts") message)) h
  where
    cases :
        (a b c d : Bool)
        → (if not a then some false else if b then some d else if c then some false else none)
          ≡ some true
        → (a ≡ true) × (b ≡ true) × (d ≡ true)
    cases false b c d h = cc
    cases true true c d h = (refl, refl, cc (h))
    cases true false true d h = cc
    cases true false false d h = cc

turn_of-none :
    (info message : Fields)
    → turn_of info message ≡ none
    → (is_text (get (codes "role") info) (codes "assistant") ≡ true)
      × (is_completed info ≡ false)
      × (has_parts (get (codes "parts") message) ≡ false)
unfolding turn_of
turn_of-none info message h =
    cases (is_text (get (codes "role") info) (codes "assistant")) (is_completed info)
      (has_parts (get (codes "parts") message)) (has_step_finish (get (codes "parts") message)) h
  where
    cases :
        (a b c d : Bool)
        → (if not a then some false else if b then some d else if c then some false else none)
          ≡ none
        → (a ≡ true) × (b ≡ false) × (c ≡ false)
    cases false b c d h = cc
    cases true true c d h = cc
    cases true false true d h = cc
    cases true false false d h = (refl, refl, refl)

message_turn-true : (v : Value) → message_turn v ≡ some true → IsFinished v
unfolding message_turn
message_turn-true (obj message) h =
    turn_of-true (message_info message (get (codes "info") message)) message h
message_turn-true null h = cc
message_turn-true (bool b) h = cc
message_turn-true (int n) h = cc
message_turn-true (float x) h = cc
message_turn-true (str s) h = cc
message_turn-true (arr vs) h = cc

message_turn-none : (v : Value) → message_turn v ≡ none → IsUnstarted v
unfolding message_turn
message_turn-none (obj message) h =
    turn_of-none (message_info message (get (codes "info") message)) message h
message_turn-none null h = cc
message_turn-none (bool b) h = cc
message_turn-none (int n) h = cc
message_turn-none (float x) h = cc
message_turn-none (str s) h = cc
message_turn-none (arr vs) h = cc

-- the messages, the last one first: unstarted ones up to one that is finished
abbrev IsFinishedList : List Value → Type 0
IsFinishedList ms =
    (later : List Value) × (m : Value) × (earlier : List Value) × (ms ≡ later ++ (m ∷ earlier))
    × All IsUnstarted later
    × IsFinished m

finished_from-IsFinishedList : (ms : List Value) → finished_from ms ≡ true → IsFinishedList ms
unfolding finished_from
finished_from-IsFinishedList [] h = cc
finished_from-IsFinishedList (m ∷ ms) h =
    go (message_turn m) refl h (finished_from-IsFinishedList ms)
  where
    go :
        (o : Option Bool)
        → message_turn m ≡ o
        → turn_or o (finished_from ms) ≡ true
        → (finished_from ms ≡ true → IsFinishedList ms)
        → IsFinishedList (m ∷ ms)
    go none e h k =
        let (later, f, earlier, same, unstarted, done) = k h in
        (m ∷ later, f, earlier, ap (λ l. m ∷ l) same, (message_turn-none m e, unstarted), done)
    go (some true) e h k = ([], m, ms, refl, tt, message_turn-true m e)
    go (some false) e h k = cc

-- A turn that is called finished is: if `last_turn_finished` holds of a list of messages, then one of them
-- is of the assistant, completed, and has a part of the type `step-finish`; and all messages after it are
-- of the assistant, not completed, and without parts. No message of the user follows it.
pub last_turn_finished-IsFinished :
    (messages : List Value)
    → last_turn_finished (arr (of_list messages)) ≡ true
    → (earlier : List Value) × (m : Value) × (later : List Value) × (messages
        ≡ earlier ++ (m ∷ later))
      × IsFinished m
      × All IsUnstarted later
unfolding last_turn_finished
last_turn_finished-IsFinished messages h =
    let (later, m, earlier, same, unstarted, done) =
      finished_from-IsFinishedList (reverse messages)
        (ap (λ l. finished_from (reverse l)) (sym (to_list-of_list messages)) ∙ h) in
    (
      reverse earlier,
      m,
      reverse later,
      sym (reverse-reverse messages)
          ∙ ap reverse same
          ∙ reverse-append later (m ∷ earlier)
          ∙ rw (reverse-cons) (append_assoc (reverse earlier) (m ∷ []) (reverse later)),
      done,
      All-reverse IsUnstarted later unstarted,
    )
