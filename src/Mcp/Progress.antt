-- ===== src/Mcp/Progress.antt =====
-- Progress notifications of `MCPProtocolServer` in mcp_protocol.py: `_progress_token`, and the closure
-- of `_progress_reporter` as a state. The clock and the interval count the same small unit of time;
-- `is_finite` says of a float's bits whether `math.isfinite` holds.
use opencode_orchestrator.Prelude.{
  ℕ, suc, ◌+◌, ◌≡◌, refl, Bool, false, ◌&&◌, ◌||◌, List, [], ◌∷◌, Option, none, some, ltb, leb,
  if◌then◌else◌, if_ind, length, All, ap, sym, ||-false,
}
use opencode_orchestrator.Text.{Text, codes, text_eq, strip, is_blank}
use opencode_orchestrator.Value.{Value, int, float, str, obj, null, get}

unfoldable pub token_of : (ℕ → Bool) → Option Value → Option Value
token_of is_finite (some (str token)) =
    if leb 1 (length token) && leb (length token) 256 then some (str token) else none
token_of is_finite (some (int n)) = some (int n)
token_of is_finite (some (float x)) = if is_finite x then some (float x) else none
token_of is_finite _ = none

unfoldable pub token_in : (ℕ → Bool) → Option Value → Option Value
token_in is_finite (some (obj metadata)) = token_of is_finite (get (codes "progressToken") metadata)
token_in is_finite _ = none

unfoldable pub progress_token : (ℕ → Bool) → Value → Option Value
progress_token is_finite (obj params) = token_in is_finite (get (codes "_meta") params)
progress_token is_finite _ = none

-- one notification, with the time at which it was sent
pub record Notification : Type 0 where
  pub progress : ℕ
  pub text : Text
  pub sent_at : ℕ

-- `last` has the last message and the time at which it was sent; the latest notification is first
pub record Reporter : Type 0 where
  pub sequence : ℕ
  pub last : Option (Text × ℕ)
  pub sent : List Notification

unfoldable pub new_reporter : Reporter
new_reporter = record { sequence = 0; last = none; sent = [] }

-- `now - last_sent_at < interval`, or the message is the last one again
unfoldable pub is_held_back : ℕ → ℕ → Text → Option (Text × ℕ) → Bool
is_held_back interval now visible none = false
is_held_back interval now visible (some (message, sent_at)) =
    text_eq visible message || ltb now (sent_at + interval)

unfoldable pub send : Reporter → ℕ → Text → Reporter
send r now visible = record {
  sequence = suc r.sequence;
  last = some (visible, now);
  sent = record { progress = suc r.sequence; text = visible; sent_at = now } ∷ r.sent;
}

unfoldable pub report : ℕ → Reporter → ℕ → Value → Reporter
report interval r now (str message) =
    if is_blank message || ltb 256 (length (strip message))
    then r
    else if is_held_back interval now (strip message) r.last
    then r
    else send r now (strip message)
report interval r now _ = r

unfoldable pub report_all : ℕ → Reporter → List (ℕ × Value) → Reporter
report_all interval r [] = r
report_all interval r ((now, message) ∷ rest) =
    report_all interval (report interval r now message) rest

-- Two notifications, one right after the other: numbered in a row, of different texts, and an
-- interval apart.
pub record Follows (interval : ℕ) (later earlier : Notification) : Type 0 where
  pub numbered : later.progress ≡ suc earlier.progress
  pub changed : text_eq later.text earlier.text ≡ false
  pub spaced : ltb later.sent_at (earlier.sent_at + interval) ≡ false

-- each notification follows the one before it, the first is numbered 1
abbrev pub ArePaced : ℕ → List Notification → Type 0
ArePaced interval [] = Unit
ArePaced interval (n ∷ []) = n.progress ≡ 1
ArePaced interval (n ∷ m ∷ ns) = Follows interval n m × ArePaced interval (m ∷ ns)

abbrev pub IsVisible : Notification → Type 0
IsVisible n = ltb 256 (length n.text) ≡ false

-- the state agrees with the latest notification
abbrev Agrees : ℕ → Option (Text × ℕ) → List Notification → Type 0
Agrees k none [] = k ≡ 0
Agrees k (some (t, at)) (n ∷ ns) = (n.progress ≡ k) × (n.text ≡ t) × (n.sent_at ≡ at)
Agrees k none (n ∷ ns) = ⊥
Agrees k (some l) [] = ⊥

is_held_back-false :
    (interval now sent_at : ℕ) (visible message : Text)
    → is_held_back interval now visible (some (message, sent_at)) ≡ false
    → (text_eq visible message ≡ false) × (ltb now (sent_at + interval) ≡ false)
unfolding is_held_back
is_held_back-false interval now sent_at visible message h =
    ||-false (text_eq visible message) (ltb now (sent_at + interval)) h

sent-ArePaced :
    (interval now : ℕ) (visible : Text) (k : ℕ) (last : Option (Text × ℕ))
    (sent : List Notification)
    → Agrees k last sent
    → ArePaced interval sent
    → is_held_back interval now visible last ≡ false
    → ArePaced interval (record { progress = suc k; text = visible; sent_at = now } ∷ sent)
sent-ArePaced interval now visible k none [] a p h = ap suc a
sent-ArePaced interval now visible k none (n ∷ ns) a p h = absurd a
sent-ArePaced interval now visible k (some l) [] a p h = absurd a
sent-ArePaced interval now visible k (some (t, at)) (n ∷ ns) (numbered, named, timed) p h =
    let (changed, spaced) = is_held_back-false interval now at visible t h in
    (
      record {
        numbered = ap suc (sym numbered);
        changed = rw named changed;
        spaced = rw timed spaced;
      },
      p,
    )

record IsPaced (interval : ℕ) (r : Reporter) : Type 0 where
  agrees : Agrees r.sequence r.last r.sent
  paced : ArePaced interval r.sent
  visible : All IsVisible r.sent

send-IsPaced :
    (interval now : ℕ) (visible : Text) (r : Reporter)
    → IsPaced interval r
    → ltb 256 (length visible) ≡ false
    → is_held_back interval now visible r.last ≡ false
    → IsPaced interval (send r now visible)
unfolding send
send-IsPaced interval now visible r p short h = record {
  agrees = (refl, refl, refl);
  paced = sent-ArePaced interval now visible r.sequence r.last r.sent p.agrees p.paced h;
  visible = (short, p.visible);
}

report-IsPaced :
    (interval : ℕ) (r : Reporter) (now : ℕ) (message : Value)
    → IsPaced interval r
    → IsPaced interval (report interval r now message)
unfolding report
report-IsPaced interval r now (str message) p =
    if_ind (IsPaced interval) (is_blank message || ltb 256 (length (strip message))) _ _ (λ _. p)
      λ short.
        if_ind (IsPaced interval) (is_held_back interval now (strip message) r.last) _ _ (λ _. p)
          λ free.
            send-IsPaced interval now (strip message) r p
              (||-false (is_blank message) (ltb 256 (length (strip message))) short).1 free
report-IsPaced interval r now null p = p
report-IsPaced interval r now _ p = p

report_all-IsPaced :
    (interval : ℕ) (r : Reporter) (reports : List (ℕ × Value))
    → IsPaced interval r
    → IsPaced interval (report_all interval r reports)
unfolding report_all
report_all-IsPaced interval r [] p = p
report_all-IsPaced interval r ((now, message) ∷ rest) p =
    report_all-IsPaced interval (report interval r now message) rest
      (report-IsPaced interval r now message p)

-- Whatever a tool reports, and whenever: the notifications that are sent are numbered from 1 in a row,
-- each is sent at least the interval after the one before it and has another text, and no text is
-- longer than 256 characters.
pub report_all-ArePaced :
    (interval : ℕ) (reports : List (ℕ × Value))
    → ArePaced interval (report_all interval new_reporter reports).sent
      × All IsVisible (report_all interval new_reporter reports).sent
unfolding new_reporter
report_all-ArePaced interval reports =
    let p =
      report_all-IsPaced interval new_reporter reports
        (record { agrees = refl; paced = tt; visible = tt }) in
    (p.paced, p.visible)
