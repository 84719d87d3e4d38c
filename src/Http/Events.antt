-- ===== src/Http/Events.antt =====
-- Whole events in the stream that the parser of src/http/client.rs reads.
use notifiapp_transport.Common.{
  ℕ, ◌≡◌, refl, ◌∙◌, arith, List, [], ◌∷◌, ◌++◌, All, true, false, Text, codes, ◌==◌, is_nil,
  concat, map, append-nil, append_assoc, subst, strip_prefix, trim, trim_start, is_whitespace,
}
use notifiapp_transport.Http.Lines.{
  Parser, initial, message_type, trim_end_matches, join, read_line, hand_out, read_field, on_chunks,
}
use notifiapp_transport.Http.Chunking.{
  IsLine, IsLine-append, consume, consume_all, consume_all_line, consume_all-append,
  on_chunks-consume_all,
}

-- An event as it is meant: its type, and its data by lines.
abbrev pub ServerEvent : Type 0
ServerEvent = Text × List Text

abbrev pub event_line : Text → Text
event_line t = codes "event: " ++ (t ++ codes "\n")

abbrev pub data_line : Text → Text
data_line d = codes "data: " ++ (d ++ codes "\n")

-- The form in which a server writes an event.
unfoldable pub render : ServerEvent → Text
render (t, ds) = event_line t ++ (concat (map data_line ds) ++ codes "\n")

-- A text that stands in a field: one line, with no white space around it.
abbrev pub IsField : Text → Type 0
IsField t = IsLine t × (trim t ≡ t) × (trim_end_matches b'\r' t ≡ t)

abbrev pub IsEvent : ServerEvent → Type 0
IsEvent (t, ds) = IsField t × All IsField ds × (is_nil ds ≡ false)

-- What the handler is called with.
unfoldable pub call_of : ServerEvent → Text × Text
call_of (t, ds) = (t, join (codes "\n") ds)

equals_refl : (a : ℕ) → (a == a) ≡ true
equals_refl a = ground arith

module _ (c : ℕ) where
  trim_end_matches-append :
      (s t : Text)
      → All (λ x. (x == c) ≡ false) s
      → trim_end_matches c t ≡ t
      → trim_end_matches c (s ++ t) ≡ s ++ t
  unfolding trim_end_matches
  trim_end_matches-append [] t h k = k
  trim_end_matches-append (x ∷ []) [] h k = rw (h.0) refl
  trim_end_matches-append (x ∷ []) (y ∷ t) h k = rw (k) refl
  trim_end_matches-append (x ∷ (y ∷ s)) t h k = rw (trim_end_matches-append (y ∷ s) t h.1 k) refl

  trim_end_matches-end : (s : Text) → trim_end_matches c (s ++ (c ∷ [])) ≡ trim_end_matches c s
  unfolding trim_end_matches
  trim_end_matches-end [] = rw (equals_refl c) refl
  trim_end_matches-end (x ∷ s) = rw (trim_end_matches-end s) refl

trim_blank : (t : Text) → trim (b' ' ∷ t) ≡ trim t
unfolding trim trim_start is_whitespace
trim_blank t = refl

trim_end_matches-IsLine :
    (c : ℕ) (s : Text) → All (λ x. (x == c) ≡ false) s → trim_end_matches c s ≡ s
unfolding trim_end_matches
trim_end_matches-IsLine c s h =
    subst (λ x. trim_end_matches c x ≡ x) (append-nil s) (trim_end_matches-append c s [] h refl)

-- A line that is not empty, with its newline, is read without it.
read_line-read_field :
    (s : Text) (p : Parser)
    → IsLine s
    → trim_end_matches b'\r' s ≡ s
    → is_nil s ≡ false
    → read_line (s ++ (b'\n' ∷ [])) p ≡ read_field s p
unfolding read_line
read_line-read_field s p h r n =
    rw (trim_end_matches-end b'\n' s, trim_end_matches-IsLine b'\n' s h, r, n) refl

consume_all-read_line :
    (s : Text) (p : Parser)
    → IsLine s
    → consume_all (s ++ (b'\n' ∷ [])) (record p { leftover = [] })
      ≡ read_line (s ++ (b'\n' ∷ [])) (record p { leftover = [] })
unfolding consume_all consume
consume_all-read_line s p h =
    rw
      (consume_all-append s (b'\n' ∷ []) (record p { leftover = [] }), consume_all_line [] s p tt h)
      refl

-- The parser between two lines.
abbrev pub between : Text → List Text → List (Text × Text) → Parser
between et ds hs = record { event_type = et; data_lines = ds; leftover = []; handled = hs }

read_field-event :
    (t et : Text) (ds : List Text) (hs : List (Text × Text))
    → trim t ≡ t
    → read_field (codes "event: " ++ t) (between et ds hs) ≡ between t ds hs
unfolding read_field strip_prefix
read_field-event t et ds hs h = rw (trim_blank t, h) refl

read_field-data :
    (d et : Text) (ds : List Text) (hs : List (Text × Text))
    → trim d ≡ d
    → read_field (codes "data: " ++ d) (between et ds hs) ≡ between et (ds ++ (d ∷ [])) hs
unfolding read_field strip_prefix
read_field-data d et ds hs h = rw (trim_blank d, h) refl

pub consume_all-read_field :
    (s et : Text) (ds : List Text) (hs : List (Text × Text))
    → IsLine s
    → trim_end_matches b'\r' s ≡ s
    → is_nil s ≡ false
    → consume_all (s ++ (b'\n' ∷ [])) (between et ds hs) ≡ read_field s (between et ds hs)
consume_all-read_field s et ds hs h r n =
    consume_all-read_line s (between et ds hs) h ∙ read_line-read_field s (between et ds hs) h r n

consume_all-event :
    (t et : Text) (ds : List Text) (hs : List (Text × Text))
    → IsField t
    → consume_all (event_line t) (between et ds hs) ≡ between t ds hs
consume_all-event t et ds hs (h, k, r) =
    consume_all-read_field (codes "event: " ++ t) et ds hs
      (IsLine-append (codes "event: ") t (ground arith) h)
      (trim_end_matches-append b'\r' (codes "event: ") t (ground arith) r) refl
    ∙ read_field-event t et ds hs k

consume_all-data :
    (d et : Text) (ds : List Text) (hs : List (Text × Text))
    → IsField d
    → consume_all (data_line d) (between et ds hs) ≡ between et (ds ++ (d ∷ [])) hs
consume_all-data d et ds hs (h, k, r) =
    consume_all-read_field (codes "data: " ++ d) et ds hs
      (IsLine-append (codes "data: ") d (ground arith) h)
      (trim_end_matches-append b'\r' (codes "data: ") d (ground arith) r) refl
    ∙ read_field-data d et ds hs k

consume_all-concat :
    (xs : List Text) (et : Text) (ds : List Text) (hs : List (Text × Text))
    → All IsField xs
    → consume_all (concat (map data_line xs)) (between et ds hs) ≡ between et (ds ++ xs) hs
unfolding consume_all
consume_all-concat [] et ds hs h = rw (append-nil ds) refl
consume_all-concat (x ∷ xs) et ds hs h =
    rw
      (
        consume_all-append (data_line x) (concat (map data_line xs)) (between et ds hs),
        consume_all-data x et ds hs h.0,
        consume_all-concat xs et (ds ++ (x ∷ [])) hs h.1,
        append_assoc ds (x ∷ []) xs,
      )
      refl

consume_all-hand_out :
    (et : Text) (ds : List Text) (hs : List (Text × Text))
    → is_nil ds ≡ false
    → consume_all (codes "\n") (between et ds hs)
      ≡ between message_type [] (hs ++ (call_of (et, ds) ∷ []))
unfolding consume_all consume read_line trim_end_matches hand_out call_of
consume_all-hand_out et ds hs h = rw (h) refl

pub consume_all-render :
    (e : ServerEvent) (hs : List (Text × Text))
    → IsEvent e
    → consume_all (render e) (between message_type [] hs)
      ≡ between message_type [] (hs ++ (call_of e ∷ []))
unfolding render
consume_all-render (t, ds) hs (h, k, n) =
    rw
      (
        consume_all-append (event_line t) (concat (map data_line ds) ++ codes "\n")
            (between message_type [] hs),
        consume_all-event t message_type [] hs h,
        consume_all-append (concat (map data_line ds)) (codes "\n") (between t [] hs),
        consume_all-concat ds t [] hs k,
      )
      (consume_all-hand_out t ds hs n)

consume_all-events :
    (es : List ServerEvent) (hs : List (Text × Text))
    → All IsEvent es
    → consume_all (concat (map render es)) (between message_type [] hs)
      ≡ between message_type [] (hs ++ map call_of es)
unfolding consume_all
consume_all-events [] hs h = rw (append-nil hs) refl
consume_all-events (e ∷ es) hs h =
    rw
      (
        consume_all-append (render e) (concat (map render es)) (between message_type [] hs),
        consume_all-render e hs h.0,
        consume_all-events es (hs ++ (call_of e ∷ [])) h.1,
        append_assoc hs (call_of e ∷ []) (map call_of es),
      )
      refl

-- From the rendering of events whose types and data lines are single lines without surrounding
-- white space, with a data line at least each, followed by a part of a line, in any chunks, the
-- parser hands out just these events in order, with the data lines joined by newlines, and keeps
-- that part.
pub on_chunks-render :
    (es : List ServerEvent) (tail : Text) (ts : List Text)
    → All IsEvent es
    → IsLine tail
    → concat ts ≡ concat (map render es) ++ tail
    → on_chunks ts initial ≡ record initial { leftover = tail; handled = map call_of es }
unfolding initial
on_chunks-render es tail ts h l e =
    rw
      (
        on_chunks-consume_all ts (between message_type [] []) tt,
        e,
        consume_all-append (concat (map render es)) tail (between message_type [] []),
        consume_all-events es [] h,
      )
      (consume_all_line [] tail (between message_type [] (map call_of es)) tt l)
