-- ===== src/Http/Push.antt =====
-- Events from the emitters of src/http/sse.rs to the handler of src/http/client.rs.
use notifiapp_transport.Common.{
  ℕ, ◌≡◌, refl, sym, ap, ◌∙◌, subst, arith, List, [], ◌∷◌, ◌++◌, All, true, false, Option, none,
  some, Text, codes, ◌==◌, if◌then◌else◌, is_nil, concat, map, ok, append-nil, append_assoc,
  Bool-cases, inl, inr, strip_prefix,
}
use notifiapp_transport.Http.Lines.{
  Parser, initial, message_type, trim_end_matches, join, read_line, hand_out, read_field, on_chunk,
  on_chunks,
}
use notifiapp_transport.Http.Chunking.{
  IsLine, consume, consume_all, consume_all-append, on_chunks-consume_all,
}
use notifiapp_transport.Http.Events.{IsField, render, between, call_of, consume_all-render}
use notifiapp_transport.Http.Emitter.{Axum, SseEmitter, Sent, send, sse_pair}
use notifiapp_transport.Http.Libraries.{Libraries}
use notifiapp_transport.Http.Client.{check_status}
use notifiapp_transport.Http.Subscription.{connect_sse, read_stream}

-- `split('\n')`: the lines of a text.
abbrev cons_to : ℕ → List Text → List Text
cons_to c [] = (c ∷ []) ∷ []
cons_to c (l ∷ ls) = (c ∷ l) ∷ ls

unfoldable pub split_lines : Text → List Text
split_lines [] = [] ∷ []
split_lines (c ∷ cs) = let rest = split_lines cs in if c == b'\n' then [] ∷ rest else cons_to c rest

-- A text without a carriage return, and one without a newline either.
abbrev pub IsReturnless : Text → Type 0
IsReturnless t = All (λ c. (c == b'\r') ≡ false) t

abbrev pub IsUnbroken : Text → Type 0
IsUnbroken t = IsLine t × IsReturnless t

-- What it documents of the events that it takes: a type in one line, and data that are not
-- empty and without a carriage return, are written as a field for the type and for each line of the data, and an empty line. At a
-- type with a newline or a carriage return it panics. A comment is a line of its own.
pub record IsAxum (axum : Axum) : Type 0 where
  pub event_lem :
      (t d : Text)
      → IsUnbroken t
      → IsReturnless d
      → is_nil d ≡ false
      → (e : axum.Event) × (axum.build t d ≡ some e) × (axum.write e ≡ render (t, split_lines d))
  pub comment_lem : (t : Text) → IsUnbroken t → axum.comment t ≡ codes ": " ++ (t ++ codes "\n\n")

cons_to-is_nil : (c : ℕ) (ls : List Text) → is_nil (cons_to c ls) ≡ false
cons_to-is_nil c [] = refl
cons_to-is_nil c (l ∷ ls) = refl

-- What the response writes: the events of the channel in order, and comments in between.
pub data Item (Event : Type 0) : Type 0 where
  pushed : Event → Item Event
  keep_alive : Item Event

module _ (axum : Axum) where
  abbrev pub carried : List (Item axum.Event) → List axum.Event
  carried [] = []
  carried (pushed e ∷ items) = e ∷ carried items
  carried (keep_alive ∷ items) = carried items

  abbrev pub item_text : Item axum.Event → Text
  item_text (pushed e) = axum.write e
  item_text keep_alive = axum.comment (sse_pair axum).1.keep_alive

  abbrev pub body : List (Item axum.Event) → Text
  body items = concat (map item_text items)

  -- The sends of an application; `none` if one of them panics.
  abbrev pub and_then :
      Sent axum → (SseEmitter axum → Option (SseEmitter axum)) → Option (SseEmitter axum)
  and_then none k = none
  and_then (some (result, e)) k = k e

  unfoldable pub send_all : List (Text × Text) → SseEmitter axum → Option (SseEmitter axum)
  send_all [] e = some e
  send_all ((t, d) ∷ xs) e = and_then (send axum t d e) (λ e'. send_all xs e')

  -- The events in the channel then.
  abbrev pub events_of : Option (SseEmitter axum) → List axum.Event
  events_of none = []
  events_of (some e) = e.events

-- An event whose type and data lines stand in fields, without a carriage return anywhere, and whose
-- data are not empty.
abbrev pub IsPlain : Text × Text → Type 0
IsPlain (t, d) =
    IsField t × All IsField (split_lines d) × IsReturnless t × IsReturnless d × (is_nil d ≡ false)

split_lines-is_nil : (d : Text) → is_nil (split_lines d) ≡ false
unfolding split_lines
split_lines-is_nil [] = refl
split_lines-is_nil (c ∷ cs) = elim (Bool-cases (c == b'\n')) [
  | inl e ↦ rw (e) refl
  | inr e ↦ rw (e) (cons_to-is_nil c (split_lines cs))
]

newline : (c : ℕ) → (c == b'\n') ≡ true → b'\n' ≡ c
newline c e = ground (arith, e)

-- A character in front of lines.
abbrev in_front : ℕ → List Text → List Text
in_front c ls = if c == b'\n' then [] ∷ ls else cons_to c ls

join-in_front :
    (c : ℕ) (ls : List Text)
    → is_nil ls ≡ false
    → join (codes "\n") (in_front c ls) ≡ c ∷ join (codes "\n") ls
unfolding join
join-in_front c [] h = absurd (cc)
join-in_front c (l ∷ []) h = elim (Bool-cases (c == b'\n')) [
  | inl e ↦ rw (e) (ap (λ x. x ∷ l) (newline c e))
  | inr e ↦ rw (e) refl
]
join-in_front c (l ∷ (m ∷ ls)) h = elim (Bool-cases (c == b'\n')) [
  | inl e ↦ rw (e) (ap (λ x. x ∷ join (codes "\n") (l ∷ m ∷ ls)) (newline c e))
  | inr e ↦ rw (e) refl
]

split_lines-join : (d : Text) → join (codes "\n") (split_lines d) ≡ d
unfolding split_lines join
split_lines-join [] = refl
split_lines-join (c ∷ cs) =
    join-in_front c (split_lines cs) (split_lines-is_nil cs) ∙ ap (◌∷◌ c) (split_lines-join cs)

consume_all-keep_alive :
    (hs : List (Text × Text))
    → consume_all (codes ": keep-alive\n\n") (between message_type [] hs)
      ≡ between message_type [] hs
unfolding consume_all consume read_line trim_end_matches hand_out read_field strip_prefix
consume_all-keep_alive hs = refl

module _ (axum : Axum) (documented : IsAxum axum) where
  -- Events of axum that are written as these pairs.
  abbrev Writes : List axum.Event → List (Text × Text) → Type 0
  Writes [] [] = Unit {0}
  Writes (e ∷ es) ((t, d) ∷ xs) = (axum.write e ≡ render (t, split_lines d)) × Writes es xs
  Writes _ _ = ⊥

  -- The sends go through, and the channel carries such events.
  send_all-Writes :
      (xs : List (Text × Text)) (s : SseEmitter axum)
      → s.is_closed ≡ false
      → All IsPlain xs
      → (es : List axum.Event) × Writes es xs
        × (send_all axum xs s ≡ some (record { is_closed = false; events = s.events ++ es }))
  unfolding send_all send
  send_all-Writes [] s c h =
      ([], tt, λ i. some (record { is_closed = c i; events = sym (append-nil s.events) i }))
  send_all-Writes ((t, d) ∷ xs) s c ((f, fs, r, r', filled), h) =
      let (e, built, written) = documented.event_lem t d (f.0, r) r' filled in
      let (es, w, all) =
        send_all-Writes xs (record { is_closed = false; events = s.events ++ (e ∷ []) }) refl h in
      (
        e ∷ es,
        (written, w),
        rw (send_all, send, built, c)
            (all
              ∙ ap (λ ys. some (record { is_closed = false; events = ys }))
                  (append_assoc s.events (e ∷ []) es)),
      )

  consume_all-item :
      (t d : Text) (e : axum.Event) (hs : List (Text × Text))
      → IsPlain (t, d)
      → axum.write e ≡ render (t, split_lines d)
      → consume_all (axum.write e) (between message_type [] hs)
        ≡ between message_type [] (hs ++ ((t, d) ∷ []))
  unfolding call_of
  consume_all-item t d e hs (h, k, r, r', filled) w = rw (w) (
      consume_all-render (t, split_lines d) hs (h, k, split_lines-is_nil d)
      ∙ ap (λ x. between message_type [] (hs ++ ((t, x) ∷ []))) (split_lines-join d))

  consume_all-body :
      (items : List (Item axum.Event)) (xs hs : List (Text × Text))
      → All IsPlain xs
      → Writes (carried axum items) xs
      → consume_all (body axum items) (between message_type [] hs)
        ≡ between message_type [] (hs ++ xs)
  unfolding consume_all sse_pair
  consume_all-body [] [] hs h w = rw (append-nil hs) refl
  consume_all-body [] (x ∷ xs) hs h w = absurd w
  consume_all-body (pushed e ∷ items) [] hs h w = absurd w
  consume_all-body (pushed e ∷ items) ((t, d) ∷ xs) hs (p, h) (v, w) =
      consume_all-append (axum.write e) (body axum items) (between message_type [] hs)
      ∙ ap (consume_all (body axum items)) (consume_all-item t d e hs p v)
      ∙ consume_all-body items xs (hs ++ ((t, d) ∷ [])) h w
      ∙ ap (between message_type []) (append_assoc hs ((t, d) ∷ []) xs)
  consume_all-body (keep_alive ∷ items) xs hs h w =
      consume_all-append (axum.comment (codes "keep-alive")) (body axum items)
        (between message_type [] hs)
      ∙ ap (consume_all (body axum items)) (
          rw (documented.comment_lem (codes "keep-alive") (ground arith, ground arith))
            (consume_all-keep_alive hs))
      ∙ consume_all-body items xs hs h w

  module _ {Url Web Response : Type 0} (lib : Libraries Url Web Response)
      (from_utf8_lossy : List ℕ → Text) where
    read_stream-ok :
        (cs : List (List ℕ)) (p : Parser)
        → read_stream from_utf8_lossy (map ok cs) p ≡ (ok tt, on_chunks (map from_utf8_lossy cs) p)
    unfolding read_stream on_chunks
    read_stream-ok [] p = refl
    read_stream-ok (c ∷ cs) p = read_stream-ok cs (on_chunk (from_utf8_lossy c) p)

    -- With an axum that builds and writes events and comments in the form it documents: sends of
    -- types and non-empty data without carriage returns, whose lines are without surrounding white
    -- space, do not panic, and a client that reads the response of the pair hands them to its
    -- handler event by event with just their types and data, whatever keep-alive comments come
    -- between them, if the status is a success and the chunks of the response, each decoded by
    -- itself, give together its text.
    pub sse_pair-connect_sse :
        (xs : List (Text × Text)) (items : List (Item axum.Event)) (response : Response)
        (chunks : List (List ℕ))
        → All IsPlain xs
        → carried axum items ≡ events_of axum (send_all axum xs (sse_pair axum).0)
        → lib.is_success (lib.status response) ≡ true
        → concat (map from_utf8_lossy chunks) ≡ body axum items
        → ((s : SseEmitter axum) × (send_all axum xs (sse_pair axum).0 ≡ some s))
          × (connect_sse lib from_utf8_lossy (ok response) (map ok chunks) ≡ (ok tt, xs))
    unfolding connect_sse check_status sse_pair initial
    sse_pair-connect_sse xs items response chunks h same good e =
        let (es, writes, all) = send_all-Writes xs (sse_pair axum).0 refl h in
        let carries : carried axum items ≡ es = same ∙ ap (events_of axum) all in
        let read =
          on_chunks-consume_all (map from_utf8_lossy chunks) (between message_type [] []) tt
          ∙ ap (λ x. consume_all x (between message_type [] [])) e
          ∙ consume_all-body items xs [] h (subst (λ ys. Writes ys xs) (sym carries) writes) in
        (
          (_, all),
          rw (connect_sse, check_status, good)
              (ap (λ r. (r.0, r.1.handled)) (read_stream-ok chunks (between message_type [] []))
                ∙ ap (λ q. (ok tt, q.handled)) read),
        )
