-- ===== src/Transport/Websocket.antt =====
-- The `Transport` of src/ws/client/transport.rs: the methods of `WsClient`.
use notifiapp_transport.Common.{
  ℕ, ◌≡◌, refl, ◌∙◌, List, [], ◌∷◌, Bool, true, false, Option, none, some, Text, Result, ok, err,
  Bool-cases, Option-cases, inl, inr, ltb,
}
use notifiapp_transport.Error.{TransportError}
use notifiapp_transport.Scheduler.Levels.{MessagePriority}
use notifiapp_transport.Frame.{Frame, FrameKind, message, event, ping, pong}
use notifiapp_transport.Client.State
use notifiapp_transport.Client.State.{
  Client, ClientCmd, Admission, Awaited, answer, sender_dropped, timed_out, try_send,
  dispatch_frame, hand_out, contains, request_start, request_send, request_end,
}
use notifiapp_transport.Client.Requests.{Op, start, dispatch, finish}
use notifiapp_transport.Client.Requests
use notifiapp_transport.Transport.{Transport, IsTransport, Seen}

-- What happens to a request: whether the channel takes it, what the client does meanwhile, and what
-- the await gives.
pub record Outcome : Type 0 where
  pub is_open : Bool
  pub meanwhile : List Op
  pub awaited : Awaited

abbrev pub seen : Client → Seen
seen c = record { endpoint = c.url; is_down = c.cancelled }

module _ (admits : Admission) (is_url : Text → Bool) where
  -- `?` on the send, and then the await.
  queued :
      Result (Unit {0}) TransportError × Client
      → ℕ
      → Outcome
      → Result (List ℕ) TransportError × Client
  queued (err e, c) id o = (err e, c)
  queued (ok u, c) id o = request_end id o.awaited (Requests.perform_all admits o.meanwhile c)

  unfoldable pub request :
      List ℕ → MessagePriority → Outcome → Client → Result (List ℕ) TransportError × Client
  unfolding queued
  request payload p o c =
      let (frame, c1) = request_start payload c in
      queued (request_send o.is_open frame p c1) frame.id o

  abbrev pub websocket : Transport
  websocket = record {
    Self = Client;
    Outcome = Outcome;
    request = request;
    send_event = State.send_event admits;
    on_event = State.on_event;
    subscribe_state = λ c. c.states;
    set_endpoint = State.set_endpoint admits is_url;
    clear_endpoint = State.clear_endpoint admits;
    endpoint = λ c. c.url;
    shutdown = State.shutdown;
  }

  try_send-seen : (cmd : ClientCmd) (c : Client) → seen (try_send admits cmd c).1 ≡ seen c
  unfolding try_send
  try_send-seen cmd c = elim (Option-cases (admits c.tries)) [
    | inl e ↦ rw (try_send, e) refl
    | inr (x, e) ↦ rw (try_send, e) refl
  ]

  hand_out-seen :
      (h : Option ℕ) (payload : List ℕ) (c : Client) → seen (hand_out admits h payload c) ≡ seen c
  unfolding hand_out
  hand_out-seen none payload c = refl
  hand_out-seen (some h) payload c = refl

  dispatch_frame-seen :
      (k : FrameKind) (id : ℕ) (payload : List ℕ) (c : Client)
      → seen (dispatch_frame admits (record { id = id; kind = k; payload = payload }) c) ≡ seen c
  unfolding dispatch_frame
  dispatch_frame-seen message id payload c = elim (Bool-cases (ltb 0 id)) [
    | inl z ↦
        rw (z)
          (elim (Bool-cases (contains id c.pending)) [ inl w ↦ rw (w) refl | inr w ↦ rw (w) refl ])
    | inr z ↦ rw (z) (hand_out-seen c.event_handler payload c)
  ]
  dispatch_frame-seen event id payload c = hand_out-seen c.event_handler payload c
  dispatch_frame-seen ping id payload c = try_send-seen _ c
  dispatch_frame-seen pong id payload c = refl

  request_end-seen : (id : ℕ) (a : Awaited) (c : Client) → seen (request_end id a c).1 ≡ seen c
  unfolding request_end
  request_end-seen id (answer r) c = refl
  request_end-seen id sender_dropped c = refl
  request_end-seen id timed_out c = refl

  perform_all-seen : (os : List Op) (c : Client) → seen (Requests.perform_all admits os c) ≡ seen c
  unfolding Requests.perform_all Requests.perform request_start
  perform_all-seen [] c = refl
  perform_all-seen (start payload ∷ os) c = perform_all-seen os (request_start payload c).1
  perform_all-seen (dispatch f ∷ os) c =
      perform_all-seen os (dispatch_frame admits f c) ∙ dispatch_frame-seen f.kind f.id f.payload c
  perform_all-seen (finish id a ∷ os) c =
      perform_all-seen os (request_end id a c).1 ∙ request_end-seen id a c

  queued-seen :
      (r : Result (Unit {0}) TransportError) (c : Client) (id : ℕ) (o : Outcome)
      → seen (queued (r, c) id o).1 ≡ seen c
  unfolding queued
  queued-seen (err e) c id o = refl
  queued-seen (ok u) c id o =
      request_end-seen id o.awaited (Requests.perform_all admits o.meanwhile c)
      ∙ perform_all-seen o.meanwhile c

  request_send-seen :
      (b : Bool) (f : Frame) (p : MessagePriority) (c : Client)
      → seen (request_send b f p c).1 ≡ seen c
  unfolding request_send
  request_send-seen true f p c = refl
  request_send-seen false f p c = refl

  request-seen :
      (payload : List ℕ) (p : MessagePriority) (o : Outcome) (c : Client)
      → seen (request payload p o c).1 ≡ seen c
  unfolding request request_start
  request-seen payload p o c =
      let (frame, c1) = request_start payload c in
      let sent = request_send o.is_open frame p c1 in
      queued-seen sent.0 sent.1 frame.id o ∙ request_send-seen o.is_open frame p c1

  set_endpoint-ok :
      (s : Text) (c : Client)
      → is_url s ≡ true
      → ((State.set_endpoint admits is_url s c).0 ≡ ok tt)
        × (seen (State.set_endpoint admits is_url s c).1 ≡ record (seen c) { endpoint = some s })
  unfolding State.set_endpoint
  set_endpoint-ok s c e =
      rw (e) (refl, try_send-seen State.endpoint_changed (record c { url = some s }))

  -- The methods keep what the trait promises.
  pub websocket-IsTransport : IsTransport websocket is_url (λ s. s) seen
  unfolding State.set_endpoint State.clear_endpoint State.send_event State.on_event State.shutdown
  websocket-IsTransport = record {
    endpoint_lem = λ c. refl;
    request_lem = request-seen;
    send_event_lem = λ payload p c. try_send-seen _ c;
    on_event_lem = λ h c. refl;
    set_endpoint_ok = set_endpoint-ok;
    set_endpoint_err = λ s c e. rw (e) refl;
    clear_endpoint_lem = λ c. try_send-seen State.endpoint_changed (record c { url = none });
    shutdown_lem = λ c. refl;
  }
