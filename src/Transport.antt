-- ===== src/Transport.antt =====
-- The trait `Transport` of src/transport.rs as an interface: its methods on the state of a client,
-- and what they promise of the endpoint and of the end of the client.
pub mod Websocket
pub mod Http
pub mod Clients
use notifiapp_transport.Common.{
  ℕ, ◌≡◌, refl, sym, ap, ◌∙◌, List, [], ◌∷◌, Bool, true, false, Option, none, some, Text, Result,
  ok, err, if◌then◌else◌, Bool-cases, inl, inr,
}
use notifiapp_transport.Error.{TransportError, invalid_url}
use notifiapp_transport.State.{ConnectionState}
use notifiapp_transport.Scheduler.Levels.{MessagePriority}

-- `Outcome` is what the network makes of a request.
pub record Transport : Type 1 where
  pub Self : Type 0
  pub Outcome : Type 0
  pub request : List ℕ → MessagePriority → Outcome → Self → Result (List ℕ) TransportError × Self
  pub send_event : List ℕ → MessagePriority → Self → Result (Unit {0}) TransportError × Self
  pub on_event : ℕ → Self → Self
  pub subscribe_state : Self → List ConnectionState
  pub set_endpoint : Text → Self → Result (Unit {0}) TransportError × Self
  pub clear_endpoint : Self → Self
  pub endpoint : Self → Option Text
  pub shutdown : Self → Self

-- What an application sees: the endpoint, and whether the client is shut down.
pub record Seen : Type 0 where
  pub endpoint : Option Text
  pub is_down : Bool

-- The addresses that are taken, how they are shown, and what is seen of a client.
pub record IsTransport (t : Transport) (is_url : Text → Bool) (shown : Text → Text)
    (seen : t.Self → Seen) : Type 0 where
  pub endpoint_lem : (c : t.Self) → t.endpoint c ≡ (seen c).endpoint
  pub request_lem :
      (payload : List ℕ) (p : MessagePriority) (o : t.Outcome) (c : t.Self)
      → seen (t.request payload p o c).1 ≡ seen c
  pub send_event_lem :
      (payload : List ℕ) (p : MessagePriority) (c : t.Self)
      → seen (t.send_event payload p c).1 ≡ seen c
  pub on_event_lem : (h : ℕ) (c : t.Self) → seen (t.on_event h c) ≡ seen c
  pub set_endpoint_ok :
      (s : Text) (c : t.Self)
      → is_url s ≡ true
      → ((t.set_endpoint s c).0 ≡ ok tt)
        × (seen (t.set_endpoint s c).1 ≡ record (seen c) { endpoint = some (shown s) })
  pub set_endpoint_err :
      (s : Text) (c : t.Self) → is_url s ≡ false → t.set_endpoint s c ≡ (err (invalid_url s), c)
  pub clear_endpoint_lem :
      (c : t.Self) → seen (t.clear_endpoint c) ≡ record (seen c) { endpoint = none }
  pub shutdown_lem : (c : t.Self) → seen (t.shutdown c) ≡ record (seen c) { is_down = true }

-- The calls of an application.
pub data TransportCall (O : Type 0) : Type 0 where
  request : (payload : List ℕ) (p : MessagePriority) (o : O) → TransportCall O
  send_event : (payload : List ℕ) (p : MessagePriority) → TransportCall O
  on_event : (handler : ℕ) → TransportCall O
  set_endpoint : (url_str : Text) → TransportCall O
  clear_endpoint shutdown : TransportCall O

module _ (t : Transport) where
  unfoldable pub perform : TransportCall t.Outcome → t.Self → t.Self
  perform (request payload p o) c = (t.request payload p o c).1
  perform (send_event payload p) c = (t.send_event payload p c).1
  perform (on_event handler) c = t.on_event handler c
  perform (set_endpoint url_str) c = (t.set_endpoint url_str c).1
  perform clear_endpoint c = t.clear_endpoint c
  perform shutdown c = t.shutdown c

  unfoldable pub perform_all : List (TransportCall t.Outcome) → t.Self → t.Self
  perform_all [] c = c
  perform_all (x ∷ xs) c = perform_all xs (perform x c)

module _ {O : Type 0} (is_url : Text → Bool) (shown : Text → Text) where
  -- The last address that was taken, unless it was cleared since; a shut-down client stays so.
  unfoldable pub track : TransportCall O → Seen → Seen
  track (request payload p o) v = v
  track (send_event payload p) v = v
  track (on_event handler) v = v
  track (set_endpoint s) v = if is_url s then record v { endpoint = some (shown s) } else v
  track clear_endpoint v = record v { endpoint = none }
  track shutdown v = record v { is_down = true }

  unfoldable pub track_all : List (TransportCall O) → Seen → Seen
  track_all [] v = v
  track_all (x ∷ xs) v = track_all xs (track x v)

module _ (t : Transport) (is_url : Text → Bool) (shown : Text → Text) (seen : t.Self → Seen)
    (laws : IsTransport t is_url shown seen) where
  perform-track :
      (x : TransportCall t.Outcome) (c : t.Self)
      → seen (perform t x c) ≡ track is_url shown x (seen c)
  unfolding perform track
  perform-track (request payload p o) c = laws.request_lem payload p o c
  perform-track (send_event payload p) c = laws.send_event_lem payload p c
  perform-track (on_event handler) c = laws.on_event_lem handler c
  perform-track (set_endpoint s) c = elim (Bool-cases (is_url s)) [
    | inl e ↦ rw (e) (laws.set_endpoint_ok s c e).1
    | inr e ↦ rw (e) (ap (λ r. seen r.1) (laws.set_endpoint_err s c e))
  ]
  perform-track clear_endpoint c = laws.clear_endpoint_lem c
  perform-track shutdown c = laws.shutdown_lem c

  pub perform_all-track :
      (xs : List (TransportCall t.Outcome)) (c : t.Self)
      → seen (perform_all t xs c) ≡ track_all is_url shown xs (seen c)
  unfolding perform_all track_all
  perform_all-track [] c = refl
  perform_all-track (x ∷ xs) c =
      perform_all-track xs (perform t x c) ∙ ap (track_all is_url shown xs) (perform-track x c)
