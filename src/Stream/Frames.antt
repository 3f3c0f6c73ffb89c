-- ===== src/Stream/Frames.antt =====
-- `parse_sse_lines` of event_stream.py reads what a server writes: an event is a line for its name, if
-- it has one, a line for each line of its data, and a blank line.
use opencode_orchestrator.Prelude.{
  ℕ, ◌≡◌, refl, Bool, true, ◌||◌, ◌&&◌, if◌then◌else◌, is_empty, arith, List, [], ◌∷◌, ◌++◌, Option,
  none, some, ◌==◌, All, ap, ◌∙◌,
}
use mathlib.Core.List.{append_assoc, append-nil}
use opencode_orchestrator.Text.{Text, codes, text_eq, starts_with, join}
use opencode_orchestrator.Text.Laws.Strip.{EndsOutside}
use opencode_orchestrator.Value.{Value}
use opencode_orchestrator.Stream.{
  SseStream, finished, raised, next, yield_event, Partial, strip_newlines, partition, field_value,
  no_event, take_field, read_line, build, parse_from, parse_sse_lines,
}

pub record Frame : Type 0 where
  pub name : Option Text
  pub lines : List Text

abbrev pub is_newline : ℕ → Bool
is_newline c = c == 10 || c == 13

-- a text that ends in no line break, so that a line can carry it
abbrev pub IsLine : Text → Type 0
IsLine s = EndsOutside is_newline s

-- what ends a line: carriage returns and line feeds, or nothing, where the reader has cut them off
abbrev pub IsNewline : Text → Type 0
IsNewline eol = All (λ c. is_newline c ≡ true) eol

-- a frame that can be written: its name and its data are lines
pub record IsFrame (f : Frame) : Type 0 where
  pub name_IsLine : (s : Text) → f.name ≡ some s → IsLine s
  pub lines_AreLines : All IsLine f.lines

module _ (eol : Text) where
  abbrev pub data_field_lines : List Text → List Text
  data_field_lines [] = []
  data_field_lines (s ∷ ss) = (codes "data: " ++ (s ++ eol)) ∷ data_field_lines ss

  abbrev pub name_lines : Option Text → List Text
  name_lines none = []
  name_lines (some s) = (codes "event: " ++ (s ++ eol)) ∷ []

  -- what the server writes
  abbrev pub frame_lines : List Frame → List Text
  frame_lines [] = []
  frame_lines (f ∷ fs) = name_lines f.name ++ (data_field_lines f.lines ++ (eol ∷ frame_lines fs))

-- the payload of a frame: its data lines with a line feed after each but the last
abbrev pub payload_text : Text → List Text → Text
payload_text s [] = s
payload_text s (t ∷ ts) = s ++ (10 ∷ payload_text t ts)

-- what is to be read: for each frame with data an event that has the frame's name and the value of its
-- payload, up to the first whose payload is no JSON
abbrev pub frame_events : (Text → Option Value) → List Frame → SseStream
frame_events loads [] = finished
frame_events loads (f ∷ fs) = elim f.lines [
  | [] ↦ frame_events loads fs
  | s ∷ ss ↦ elim (loads (payload_text s ss)) [
    | none ↦ raised
    | some v ↦ next (record { event = f.name; payload = v }) (frame_events loads fs)
  ]
]

strip_newlines-IsNewline : (eol : Text) → IsNewline eol → strip_newlines eol ≡ []
unfolding strip_newlines
strip_newlines-IsNewline [] h = refl
strip_newlines-IsNewline (c ∷ eol) h = rw (strip_newlines-IsNewline eol h.1, h.0) refl

-- the line break is cut off, and nothing else
strip_newlines-append : (s eol : Text) → IsLine s → IsNewline eol → strip_newlines (s ++ eol) ≡ s
unfolding strip_newlines
strip_newlines-append [] eol h n = strip_newlines-IsNewline eol n
strip_newlines-append (c ∷ []) eol h n = rw (strip_newlines-IsNewline eol n, h) refl
strip_newlines-append (c ∷ d ∷ s) eol h n =
    go (strip_newlines ((d ∷ s) ++ eol)) (strip_newlines-append (d ∷ s) eol h n)
  where
    go :
        (rest : Text)
        → rest ≡ d ∷ s
        → (if is_newline c && is_empty rest then [] else c ∷ rest) ≡ c ∷ d ∷ s
    go rest e = rw e (ground arith)

data-IsLine : (s : Text) → IsLine s → IsLine (codes "data: " ++ s)
data-IsLine [] h = refl
data-IsLine (c ∷ s) h = h

event-IsLine : (s : Text) → IsLine s → IsLine (codes "event: " ++ s)
event-IsLine [] h = refl
event-IsLine (c ∷ s) h = h

read_data :
    (p : Partial) (s : Text)
    → read_line p (codes "data: " ++ s) ≡ record p { data_lines = p.data_lines ++ (s ∷ []) }
unfolding read_line starts_with partition field_value take_field text_eq
read_data p s = refl

read_event :
    (p : Partial) (s : Text) → read_line p (codes "event: " ++ s) ≡ record p { event_name = some s }
unfolding read_line starts_with partition field_value take_field text_eq
read_event p s = refl

join-payload_text : (s : Text) (ss : List Text) → join (10 ∷ []) (s ∷ ss) ≡ payload_text s ss
unfolding join
join-payload_text s [] = refl
join-payload_text s (t ∷ ts) = ap (λ u. s ++ (10 ∷ u)) (join-payload_text t ts)

build-frame_events :
    (loads : Text → Option Value) (f : Frame) (fs : List Frame)
    → build loads f.name f.lines (frame_events loads fs) ≡ frame_events loads (f ∷ fs)
unfolding build yield_event
build-frame_events loads f fs = go f.lines
  where
    yielded :
        (o : Option Value)
        → yield_event f.name o (frame_events loads fs) ≡ elim o [
          | none ↦ raised
          | some v ↦ next (record { event = f.name; payload = v }) (frame_events loads fs)
        ]
    yielded none = refl
    yielded (some v) = refl

    go :
        (ls : List Text)
        → build loads f.name ls (frame_events loads fs) ≡ elim ls [
          | [] ↦ frame_events loads fs
          | s ∷ ss ↦ elim (loads (payload_text s ss)) [
            | none ↦ raised
            | some v ↦ next (record { event = f.name; payload = v }) (frame_events loads fs)
          ]
        ]
    go [] = refl
    go (s ∷ ss) = rw (join-payload_text s ss) (yielded (loads (payload_text s ss)))

module _ (loads : Text → Option Value) (eol : Text) (ends : IsNewline eol) where
  parse_filled :
      (p : Partial) (c : ℕ) (s : Text) (rest : List Text)
      → IsLine (c ∷ s)
      → parse_from loads p ((c ∷ (s ++ eol)) ∷ rest) ≡ parse_from loads (read_line p (c ∷ s)) rest
  unfolding parse_from
  parse_filled p c s rest h =
      let cut : strip_newlines (c ∷ (s ++ eol)) ≡ c ∷ s =
        strip_newlines-append (c ∷ s) eol h ends in
      rw (parse_from, cut) (ap (λ t. parse_from loads (read_line p t) rest) cut)

  parse_blank :
      (p : Partial) (rest : List Text)
      → parse_from loads p (eol ∷ rest)
        ≡ build loads p.event_name p.data_lines (parse_from loads no_event rest)
  unfolding parse_from
  parse_blank p rest = rw (parse_from, strip_newlines-IsNewline eol ends) refl

  parse_data :
      (name : Option Text) (done ss rest : List Text)
      → All IsLine ss
      → parse_from loads
          (record { event_name = name; data_lines = done })
          (data_field_lines eol ss ++ rest)
        ≡ parse_from loads (record { event_name = name; data_lines = done ++ ss }) rest
  parse_data name done [] rest h = rw (append-nil done) refl
  parse_data name done (s ∷ ss) rest h =
      parse_filled (record { event_name = name; data_lines = done }) b'd' (codes "ata: " ++ s)
        (data_field_lines eol ss ++ rest) (data-IsLine s h.0)
      ∙ ap (λ q. parse_from loads q (data_field_lines eol ss ++ rest))
          (read_data (record { event_name = name; data_lines = done }) s)
      ∙ parse_data name (done ++ (s ∷ [])) ss rest h.1
      ∙ ap (λ l. parse_from loads (record { event_name = name; data_lines = l }) rest)
          (append_assoc done (s ∷ []) ss)

  parse_frame :
      (f : Frame) (rest : List Text)
      → IsFrame f
      → parse_from loads no_event
          (name_lines eol f.name ++ (data_field_lines eol f.lines ++ (eol ∷ rest)))
        ≡ build loads f.name f.lines (parse_from loads no_event rest)
  unfolding no_event
  parse_frame f rest h = go f.name refl
    where
      data_after :
          (name : Option Text)
          → parse_from loads
              (record { event_name = name; data_lines = [] })
              (data_field_lines eol f.lines ++ (eol ∷ rest))
            ≡ build loads name f.lines (parse_from loads no_event rest)
      data_after name =
          parse_data name [] f.lines (eol ∷ rest) h.lines_AreLines
          ∙ parse_blank (record { event_name = name; data_lines = f.lines }) rest

      go :
          (name : Option Text)
          → f.name ≡ name
          → parse_from loads no_event
              (name_lines eol name ++ (data_field_lines eol f.lines ++ (eol ∷ rest)))
            ≡ build loads name f.lines (parse_from loads no_event rest)
      go none e = data_after none
      go (some s) e =
          parse_filled no_event b'e' (codes "vent: " ++ s)
            (data_field_lines eol f.lines ++ (eol ∷ rest)) (event-IsLine s (h.name_IsLine s e))
          ∙ ap (λ q. parse_from loads q (data_field_lines eol f.lines ++ (eol ∷ rest)))
              (read_event no_event s)
          ∙ data_after (some s)

-- What is written is read back. Let frames have names and data lines that end in no carriage return
-- and no line feed, and let a server write them as lines that each end in the same line break, of any
-- carriage returns and line feeds. The lines parse to one event for each frame that has data, in order,
-- with the frame's own name and the JSON value of its data lines joined by line feeds, up to the first
-- frame whose data is no JSON; a frame without data yields no event, and its name is not kept.
pub parse_sse_lines-frame_lines :
    (loads : Text → Option Value) (eol : Text) (fs : List Frame)
    → IsNewline eol
    → All IsFrame fs
    → parse_sse_lines loads (frame_lines eol fs) ≡ frame_events loads fs
unfolding parse_sse_lines parse_from no_event build
parse_sse_lines-frame_lines loads eol [] ends h = refl
parse_sse_lines-frame_lines loads eol (f ∷ fs) ends h =
    parse_frame loads eol ends f (frame_lines eol fs) h.0
    ∙ ap (build loads f.name f.lines) (parse_sse_lines-frame_lines loads eol fs ends h.1)
    ∙ build-frame_events loads f fs
