-- ===== src/Http/Emitter.antt =====
-- src/http/sse.rs: the server's ends of the streams of events.
use notifiapp_transport.Common.{
  codes, ℕ, List, [], ◌∷◌, ◌++◌, Bool, true, false, Result, ok, err, Text, if◌then◌else◌, not,
  Option, none, some,
}
use notifiapp_transport.Backoff.{from_secs}
use notifiapp_transport.Error.{TransportError, encode_error, sse_stream_closed}

-- The crate axum: what `Event::default().event(..).data(..)` builds, `none` if it panics, and how
-- its response writes an event and a comment.
pub record Axum : Type 1 where
  pub Event : Type 0
  pub build : Text → Text → Option Event
  pub write : Event → Text
  pub comment : Text → Text

abbrev pub is_ok : {A E : Type 0} → Result A E → Bool
is_ok (ok a) = true
is_ok (err e) = false

-- The response of a stream: what it sends when no event came for a while. The crate axum writes it.
pub record SseResponse : Type 0 where
  pub interval : ℕ
  pub keep_alive : Text

-- The channel of an emitter: whether its receiver is gone, and the events that it carries.
pub record SseEmitter (axum : Axum) : Type 0 where
  pub is_closed : Bool
  pub events : List axum.Event

-- `Vec::retain` with a test that changes what it is given, and that may panic.
abbrev pub kept : {A : Type 0} → Option (Bool × A) → Option (List A) → Option (List A)
kept none rest = none
kept (some p) none = none
kept (some (true, x)) (some rest) = some (x ∷ rest)
kept (some (false, x)) (some rest) = some rest

unfoldable pub retain : {A : Type 0} → (A → Option (Bool × A)) → List A → Option (List A)
retain f [] = some []
retain f (x ∷ xs) = let rest = retain f xs in kept (f x) rest

module _ (axum : Axum) where
  -- What a call leaves, `none` if it panics: its result, with the emitter behind it.
  abbrev pub Sent : Type 0
  Sent = Option (Result (Unit {0}) TransportError × SseEmitter axum)

  abbrev pub push :
      axum.Event → SseEmitter axum → Result (Unit {0}) TransportError × SseEmitter axum
  push event self =
      if self.is_closed
      then (err sse_stream_closed, self)
      else (ok tt, record self { events = self.events ++ (event ∷ []) })

  unfoldable pub send : Text → Text → SseEmitter axum → Sent
  send event_type content self = elim (axum.build event_type content) [
    | none ↦ none
    | some event ↦ some (push event self)
  ]

  unfoldable pub is_alive : SseEmitter axum → Bool
  is_alive self = not self.is_closed

  unfoldable pub sse_pair : SseEmitter axum × SseResponse
  sse_pair = (
    record { is_closed = false; events = [] },
    record { interval = from_secs 15; keep_alive = codes "keep-alive" },
  )

  module _ {T : Type 0} (to_json : T → Result Text Text) where
    unfoldable pub send_json : Text → T → SseEmitter axum → Sent
    unfolding send
    send_json event_type content self = elim (to_json content) [
      | err e ↦ some (err (encode_error e), self)
      | ok json ↦ send event_type json self
    ]

    abbrev pub succeeded : Sent → Option (Bool × SseEmitter axum)
    succeeded none = none
    succeeded (some (result, e)) = some (is_ok result, e)

    -- The test that `broadcast_sse_json` gives to `retain`.
    unfoldable pub offer : Text → T → SseEmitter axum → Option (Bool × SseEmitter axum)
    unfolding send_json is_alive
    offer event_type content e =
        if not (is_alive e) then some (false, e) else succeeded (send_json event_type content e)

    unfoldable pub broadcast_sse_json :
        Text → T → List (SseEmitter axum) → Option (List (SseEmitter axum))
    unfolding retain offer
    broadcast_sse_json event_type content emitters = retain (offer event_type content) emitters
