-- ===== src/Progress/Newest.antt =====
-- The timestamp that `latest_message_progress_at` of progress.py picks.
use opencode_orchestrator.Prelude.{
  ℕ, suc, ◌+◌, ◌≤◌, ◌<◌, ◌≡◌, refl, sym, subst, ◌∙◌, ◌&&◌, ◌||◌, List, [], ◌∷◌, ◌++◌, Option, none,
  some, ◌⊎◌, inl, inr, arith, ◌==◌, leb, ltb, Bool-cases, All, Some, All-append, All-map,
}
use opencode_orchestrator.Text.{Text}
use opencode_orchestrator.Value.Laws.{to_list-of_list}
use opencode_orchestrator.Value.{Value, arr, of_list}
use opencode_orchestrator.Progress.{
  Timestamp, message_timestamps, Latest, replaces, take_stamp, take_stamps, latest_from, text_of,
  latest_message_progress_at,
}

-- the timestamps of all messages
abbrev pub all_stamps : (Value → Option Timestamp) → List Value → List Timestamp
all_stamps parse_timestamp [] = []
all_stamps parse_timestamp (m ∷ ms) =
    message_timestamps parse_timestamp m ++ all_stamps parse_timestamp ms

abbrev Below : ℕ → Option Latest → Type 0
Below n none = ⊥
Below n (some l) = n ≤ l.instant

-- a timestamp that is too late, or not after the one that was picked
abbrev Under : ℕ → Option Latest → Timestamp → Type 0
Under allowed r t = (allowed < t.1) ⊎ Below t.1 r

-- one pick is not before another
abbrev Grows : Option Latest → Option Latest → Type 0
Grows none r = Unit
Grows (some l) r = Below l.instant r

-- the pick is one of the timestamps, and not too late
abbrev IsFrom : ℕ → List Timestamp → Option Latest → Type 0
IsFrom allowed ts none = ⊥
IsFrom allowed ts (some l) = (l.instant ≤ allowed) × Some (λ t. t ≡ (l.text, l.instant)) ts

Below-Grows : (n : ℕ) (a b : Option Latest) → Below n a → Grows a b → Below n b
Below-Grows n none b h g = absurd h
Below-Grows n (some l) none h g = absurd g
Below-Grows n (some l) (some k) h g = omega (arith, h, g)

Grows-trans : (a b c : Option Latest) → Grows a b → Grows b c → Grows a c
Grows-trans none b c g h = tt
Grows-trans (some l) b c g h = Below-Grows l.instant b c g h

Grows-refl : (a : Option Latest) → Grows a a
Grows-refl none = tt
Grows-refl (some l) = omega arith

module _ (allowed index : ℕ) where
  take_stamp-Grows :
      (latest : Option Latest) (t : Timestamp) → Grows latest (take_stamp allowed index latest t)
  unfolding take_stamp replaces
  take_stamp-Grows none t = tt
  take_stamp-Grows (some l) (text, instant) = elim (Bool-cases (ltb allowed instant)) [
    | inl late ↦ rw late (omega arith)
    | inr fine ↦
        elim (Bool-cases (ltb l.instant instant || (l.instant == instant && leb l.index index))) [
          | inl newer ↦ rw (fine, newer) (ground arith)
          | inr older ↦ rw (fine, older) (omega arith)
        ]
  ]

  take_stamp-Under :
      (latest : Option Latest) (t : Timestamp) → Under allowed (take_stamp allowed index latest t) t
  unfolding take_stamp replaces
  take_stamp-Under none (text, instant) = elim (Bool-cases (ltb allowed instant)) [
    | inl late ↦ inl (ground arith)
    | inr fine ↦ rw fine (inr (omega arith))
  ]
  take_stamp-Under (some l) (text, instant) = elim (Bool-cases (ltb allowed instant)) [
    | inl late ↦ inl (ground arith)
    | inr fine ↦
        elim (Bool-cases (ltb l.instant instant || (l.instant == instant && leb l.index index))) [
          | inl newer ↦ rw (fine, newer) (inr (omega arith))
          | inr older ↦ rw (fine, older) (inr (ground arith))
        ]
  ]

  take_stamp-IsFrom :
      (latest : Option Latest) (t : Timestamp)
      → (take_stamp allowed index latest t ≡ latest)
        ⊎ IsFrom allowed (t ∷ []) (take_stamp allowed index latest t)
  unfolding take_stamp
  take_stamp-IsFrom latest (text, instant) = elim (Bool-cases (ltb allowed instant)) [
    | inl late ↦ inl (rw late refl)
    | inr fine ↦ elim (Bool-cases (replaces instant index latest)) [
      | inl newer ↦ rw (fine, newer) (inr (ground arith, inl refl))
      | inr older ↦ inl (rw (fine, older) refl)
    ]
  ]

Under-Grows :
    (allowed : ℕ) (r q : Option Latest)
    → Grows r q
    → (t : Timestamp) → Under allowed r t
    → Under allowed q t
Under-Grows allowed r q g t (inl h) = inl h
Under-Grows allowed r q g t (inr h) = inr (Below-Grows t.1 r q h g)

Some-append_left : (P : Timestamp → Type 0) (ts us : List Timestamp) → Some P ts → Some P (ts ++ us)
Some-append_left P [] us h = absurd h
Some-append_left P (t ∷ ts) us (inl h) = inl h
Some-append_left P (t ∷ ts) us (inr h) = inr (Some-append_left P ts us h)

Some-append_right :
    (P : Timestamp → Type 0) (ts us : List Timestamp) → Some P us → Some P (ts ++ us)
Some-append_right P [] us h = h
Some-append_right P (t ∷ ts) us h = inr (Some-append_right P ts us h)

IsFrom-append_left :
    (allowed : ℕ) (ts us : List Timestamp) (r : Option Latest)
    → IsFrom allowed ts r
    → IsFrom allowed (ts ++ us) r
IsFrom-append_left allowed ts us none h = h
IsFrom-append_left allowed ts us (some l) (h, k) =
    (h, Some-append_left (λ t. t ≡ (l.text, l.instant)) ts us k)

IsFrom-append_right :
    (allowed : ℕ) (ts us : List Timestamp) (r : Option Latest)
    → IsFrom allowed us r
    → IsFrom allowed (ts ++ us) r
IsFrom-append_right allowed ts us none h = h
IsFrom-append_right allowed ts us (some l) (h, k) =
    (h, Some-append_right (λ t. t ≡ (l.text, l.instant)) ts us k)

-- what the loops over some timestamps make of a pick
record IsPicked (allowed : ℕ) (latest : Option Latest) (ts : List Timestamp) (r : Option Latest)
    : Type 0 where
  pub grows : Grows latest r
  pub under : All (Under allowed r) ts
  pub source : (r ≡ latest) ⊎ IsFrom allowed ts r

IsPicked-nil : (allowed : ℕ) (latest : Option Latest) → IsPicked allowed latest [] latest
IsPicked-nil allowed latest = record { grows = Grows-refl latest; under = tt; source = inl refl }

IsPicked-append :
    (allowed : ℕ) (a b c : Option Latest) (ts us : List Timestamp)
    → IsPicked allowed a ts b
    → IsPicked allowed b us c
    → IsPicked allowed a (ts ++ us) c
IsPicked-append allowed a b c ts us h k = record {
  grows = Grows-trans a b c h.grows k.grows;
  under =
      All-append (Under allowed c) ts us
        (All-map (Under allowed b) (Under-Grows allowed b c k.grows) ts h.under) k.under;
  source = from k.source h.source;
}
  where
    from :
        (c ≡ b) ⊎ IsFrom allowed us c
        → (b ≡ a) ⊎ IsFrom allowed ts b
        → (c ≡ a) ⊎ IsFrom allowed (ts ++ us) c
    from (inr f) q = inr (IsFrom-append_right allowed ts us c f)
    from (inl e) (inl f) = inl (e ∙ f)
    from (inl e) (inr f) =
        inr (IsFrom-append_left allowed ts us c (subst (IsFrom allowed ts) (sym e) f))

take_stamps-IsPicked :
    (allowed index : ℕ) (latest : Option Latest) (ts : List Timestamp)
    → IsPicked allowed latest ts (take_stamps allowed index latest ts)
unfolding take_stamps
take_stamps-IsPicked allowed index latest [] = IsPicked-nil allowed latest
take_stamps-IsPicked allowed index latest (t ∷ ts) =
    let one = take_stamp allowed index latest t in
    IsPicked-append allowed latest one (take_stamps allowed index one ts) (t ∷ []) ts
      (record {
        grows = take_stamp-Grows allowed index latest t;
        under = (take_stamp-Under allowed index latest t, tt);
        source = take_stamp-IsFrom allowed index latest t;
      })
      (take_stamps-IsPicked allowed index one ts)

latest_from-IsPicked :
    (parse_timestamp : Value → Option Timestamp) (allowed index : ℕ) (latest : Option Latest)
    (ms : List Value)
    → IsPicked allowed latest
        (all_stamps parse_timestamp ms)
        (latest_from parse_timestamp allowed index latest ms)
unfolding latest_from
latest_from-IsPicked parse_timestamp allowed index latest [] = IsPicked-nil allowed latest
latest_from-IsPicked parse_timestamp allowed index latest (m ∷ ms) =
    let first = take_stamps allowed index latest (message_timestamps parse_timestamp m) in
    IsPicked-append allowed latest first (latest_from parse_timestamp allowed (suc index) first ms)
      (message_timestamps parse_timestamp m) (all_stamps parse_timestamp ms)
      (take_stamps-IsPicked allowed index latest (message_timestamps parse_timestamp m))
      (latest_from-IsPicked parse_timestamp allowed (suc index) first ms)

-- a text that is the newest of the timestamps up to an instant; or none, where all are later
abbrev pub IsNewest : ℕ → List Timestamp → Option Text → Type 0
IsNewest allowed ts none = All (λ t. allowed < t.1) ts
IsNewest allowed ts (some text) =
    (instant : ℕ) × (instant ≤ allowed)
    × Some (λ t. t ≡ (text, instant)) ts
    × All (λ t. (allowed < t.1) ⊎ (t.1 ≤ instant)) ts

text_of-IsNewest :
    (allowed : ℕ) (ts : List Timestamp) (r : Option Latest)
    → IsPicked allowed none ts r
    → IsNewest allowed ts (text_of r)
text_of-IsNewest allowed ts none h = All-map (Under allowed none) late ts h.under
  where
    late : (t : Timestamp) → Under allowed none t → allowed < t.1
    late t (inl h) = h
    late t (inr h) = absurd h
text_of-IsNewest allowed ts (some l) h = go h.source
  where
    go : (some l ≡ none) ⊎ IsFrom allowed ts (some l) → IsNewest allowed ts (some l.text)
    go (inl e) = cc
    go (inr (within, is_in)) = (l.instant, within, is_in, h.under)

-- The time of the latest progress is the newest timestamp of the messages, of their times and of their
-- tools' times, among those that are at most the skew after the observation; where there is none,
-- all timestamps are later than that.
pub latest_message_progress_at-IsNewest :
    (parse_timestamp : Value → Option Timestamp) (observation skew : ℕ) (messages : List Value)
    → IsNewest
        (observation + skew)
        (all_stamps parse_timestamp messages)
        (latest_message_progress_at parse_timestamp observation skew (arr (of_list messages)))
unfolding latest_message_progress_at
latest_message_progress_at-IsNewest parse_timestamp observation skew messages =
    rw (to_list-of_list messages) (
      text_of-IsNewest (observation + skew) (all_stamps parse_timestamp messages) _
        (latest_from-IsPicked parse_timestamp (observation + skew) 0 none messages))
