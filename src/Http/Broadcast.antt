-- ===== src/Http/Broadcast.antt =====
-- `broadcast_sse_json` of src/http/sse.rs: which emitters are kept, and what they carry.
use notifiapp_transport.Common.{
  ◌≡◌, refl, ap, sym, ◌∙◌, List, [], ◌∷◌, ◌++◌, true, false, Option, none, some, Result, ok, err,
  Text, if◌then◌else◌, map, Bool-cases, inl, inr, Result-cases, Option-cases,
}
use notifiapp_transport.Http.Emitter.{
  Axum, SseEmitter, send, send_json, is_alive, kept, retain, offer, broadcast_sse_json,
}

kept-skip : {A : Type 0} (x : A) (rest : Option (List A)) → kept (some (false, x)) rest ≡ rest
kept-skip x none = refl
kept-skip x (some rest) = refl

module _ (axum : Axum) where
  -- The emitters whose clients are there.
  unfoldable pub alive : List (SseEmitter axum) → List (SseEmitter axum)
  alive [] = []
  alive (e ∷ es) = let rest = alive es in if e.is_closed then rest else e ∷ rest

  -- An emitter behind an event more.
  unfoldable pub with_event : axum.Event → SseEmitter axum → SseEmitter axum
  with_event event e = record e { events = e.events ++ (event ∷ []) }

  -- What should come of a broadcast of an event that axum builds or panics at, to these emitters.
  abbrev pub reached : Option axum.Event → List (SseEmitter axum) → Option (List (SseEmitter axum))
  reached event [] = some []
  reached none (e ∷ es) = none
  reached (some event) (e ∷ es) = some (map (with_event event) (e ∷ es))

  -- What should come of it, by the text of its data.
  unfoldable pub expected :
      Text → Result Text Text → List (SseEmitter axum) → Option (List (SseEmitter axum))
  expected event_type (ok json) es = reached (axum.build event_type json) (alive es)
  expected event_type (err e) es = some []

  module _ {T : Type 0} (to_json : T → Result Text Text) (event_type : Text) (content : T) where
    offer-closed :
        (e : SseEmitter axum)
        → e.is_closed ≡ true
        → offer axum to_json event_type content e ≡ some (false, e)
    unfolding offer is_alive
    offer-closed e b = rw (offer, is_alive, b) refl

    offer-built :
        (json : Text) (event : axum.Event) (e : SseEmitter axum)
        → to_json content ≡ ok json
        → axum.build event_type json ≡ some event
        → e.is_closed ≡ false
        → offer axum to_json event_type content e ≡ some (true, with_event event e)
    unfolding offer is_alive send_json send with_event
    offer-built json event e q v b = rw (offer, is_alive, b, send_json, q, send, v, b) refl

    offer-panic :
        (json : Text) (e : SseEmitter axum)
        → to_json content ≡ ok json
        → axum.build event_type json ≡ none
        → e.is_closed ≡ false
        → offer axum to_json event_type content e ≡ none
    unfolding offer is_alive send_json send
    offer-panic json e q v b = rw (offer, is_alive, b, send_json, q, send, v) refl

    offer-err :
        (x : Text) (e : SseEmitter axum)
        → to_json content ≡ err x
        → e.is_closed ≡ false
        → offer axum to_json event_type content e ≡ some (false, e)
    unfolding offer is_alive send_json
    offer-err x e q b =
        rw (offer, is_alive, b, send_json, q)
          (ap (λ c. some (false, record { is_closed = c; events = e.events })) b)

    broadcast_sse_json-built :
        (json : Text) (event : axum.Event) (es : List (SseEmitter axum))
        → to_json content ≡ ok json
        → axum.build event_type json ≡ some event
        → broadcast_sse_json axum to_json event_type content es
          ≡ some (map (with_event event) (alive es))
    unfolding broadcast_sse_json retain alive
    broadcast_sse_json-built json event [] q v = refl
    broadcast_sse_json-built json event (e ∷ es) q v = elim (Bool-cases e.is_closed) [
      | inl b ↦ rw (offer-closed e b, broadcast_sse_json-built json event es q v, b) refl
      | inr b ↦
          rw (offer-built json event e q v b, broadcast_sse_json-built json event es q v, b) refl
    ]

    broadcast_sse_json-panic :
        (json : Text) (es : List (SseEmitter axum))
        → to_json content ≡ ok json
        → axum.build event_type json ≡ none
        → broadcast_sse_json axum to_json event_type content es ≡ reached none (alive es)
    unfolding broadcast_sse_json retain alive
    broadcast_sse_json-panic json [] q v = refl
    broadcast_sse_json-panic json (e ∷ es) q v = elim (Bool-cases e.is_closed) [
      | inl b ↦
          rw (offer-closed e b, broadcast_sse_json-panic json es q v, b)
            (kept-skip (record { is_closed = true; events = e.events }) (reached none (alive es)))
      | inr b ↦ rw (offer-panic json e q v b, b) refl
    ]

    broadcast_sse_json-err :
        (x : Text) (es : List (SseEmitter axum))
        → to_json content ≡ err x
        → broadcast_sse_json axum to_json event_type content es ≡ some []
    unfolding broadcast_sse_json retain
    broadcast_sse_json-err x [] q = refl
    broadcast_sse_json-err x (e ∷ es) q = elim (Bool-cases e.is_closed) [
      | inl b ↦ rw (offer-closed e b, broadcast_sse_json-err x es q) refl
      | inr b ↦ rw (offer-err x e q b, broadcast_sse_json-err x es q) refl
    ]

    built :
        (event : axum.Event) (es : List (SseEmitter axum))
        → some (map (with_event event) es) ≡ reached (some event) es
    built event [] = refl
    built event (e ∷ es) = refl

    broadcast_sse_json-ok :
        (json : Text) (es : List (SseEmitter axum))
        → to_json content ≡ ok json
        → broadcast_sse_json axum to_json event_type content es
          ≡ reached (axum.build event_type json) (alive es)
    broadcast_sse_json-ok json es q = elim (Option-cases (axum.build event_type json)) [
      | inl v ↦ broadcast_sse_json-panic json es q v ∙ ap (λ o. reached o (alive es)) (sym v)
      | inr (event, v) ↦
          broadcast_sse_json-built json event es q v
          ∙ built event (alive es)
          ∙ ap (λ o. reached o (alive es)) (sym v)
    ]

    -- A broadcast whose data serialises keeps just the emitters whose clients are connected, in
    -- order, each with the event that axum builds appended; if axum panics at the type or the
    -- data, it panics, unless no client is connected. One whose data does not serialise removes
    -- all emitters.
    pub broadcast_sse_json-expected :
        (es : List (SseEmitter axum))
        → broadcast_sse_json axum to_json event_type content es
          ≡ expected event_type (to_json content) es
    unfolding expected
    broadcast_sse_json-expected es = elim (Result-cases (to_json content)) [
      | inl (json, q) ↦ broadcast_sse_json-ok json es q ∙ ap (λ r. expected event_type r es) (sym q)
      | inr (x, q) ↦ broadcast_sse_json-err x es q ∙ ap (λ r. expected event_type r es) (sym q)
    ]
