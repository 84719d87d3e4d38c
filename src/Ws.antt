-- ===== src/Ws.antt =====
-- src/ws/client/stream.rs: the messages of the WebSocket layer and the client's stream over them.
pub mod Gloo
use notifiapp_transport.Common.{
  ℕ, List, Option, none, some, Text, Result, ok, err, map_err, ◌>>=◌, ◌≡◌, refl, ◌↔◌, ap, ◌∙◌,
}

pub data WsMessage : Type 0 where
  text : Text → WsMessage
  binary : List ℕ → WsMessage

-- The messages of tungstenite, the WebSocket crate.
pub data Message : Type 0 where
  text : Text → Message
  binary : List ℕ → Message
  ping pong close frame : List ℕ → Message

-- `Poll<Option<Result<M, E>>>`, as `poll_next` returns it; `ready none` ends the stream.
pub data Poll (A : Type 0) : Type 0 where
  ready : A → Poll A
  pending : Poll A

-- `poll_next`: control messages are skipped; the task is woken to poll again.
unfoldable pub poll_next :
    Poll (Option (Result Message Text)) → Poll (Option (Result WsMessage Text))
poll_next (ready (some (ok (Message.text t)))) = ready (some (ok (WsMessage.text t)))
poll_next (ready (some (ok (Message.binary b)))) = ready (some (ok (WsMessage.binary b)))
poll_next (ready (some (ok (ping b)))) = pending
poll_next (ready (some (ok (pong b)))) = pending
poll_next (ready (some (ok (close b)))) = pending
poll_next (ready (some (ok (frame b)))) = pending
poll_next (ready (some (err e))) = ready (some (err e))
poll_next (ready none) = ready none
poll_next pending = pending

-- `Poll::map_err`.
abbrev pub poll_unit :
    {E : Type 0} → (E → Text) → Poll (Result (Unit {0}) E) → Poll (Result (Unit {0}) Text)
poll_unit to_string (ready r) = ready (map_err to_string r)
poll_unit to_string pending = pending

-- These, `connect` and `close` are tungstenite's, with the errors as texts; `connect` drops the
-- response to the upgrade.
unfoldable pub poll_ready :
    {E : Type 0} → (E → Text) → Poll (Result (Unit {0}) E) → Poll (Result (Unit {0}) Text)
poll_ready to_string polled = poll_unit to_string polled

unfoldable pub poll_flush :
    {E : Type 0} → (E → Text) → Poll (Result (Unit {0}) E) → Poll (Result (Unit {0}) Text)
poll_flush to_string polled = poll_unit to_string polled

unfoldable pub poll_close :
    {E : Type 0} → (E → Text) → Poll (Result (Unit {0}) E) → Poll (Result (Unit {0}) Text)
poll_close to_string polled = poll_unit to_string polled

unfoldable pub connect :
    {Stream Response E : Type 0} → (E → Text) → Result (Stream × Response) E → Result Stream Text
connect to_string opened = do pair ← map_err to_string opened; ok pair.0

unfoldable pub close_stream :
    {E : Type 0} → (E → Text) → Result (Unit {0}) E → Result (Unit {0}) Text
close_stream to_string closed = map_err to_string closed

-- What `start_send` hands to tungstenite.
unfoldable pub start_send : WsMessage → Message
start_send (WsMessage.text t) = Message.text t
start_send (WsMessage.binary b) = Message.binary b

received_as :
    (polled : Poll (Option (Result Message Text))) (m : WsMessage)
    → poll_next polled ≡ ready (some (ok m))
    → polled ≡ ready (some (ok (start_send m)))
unfolding poll_next start_send
received_as (ready (some (ok (Message.text t)))) (WsMessage.text u) e = cc
received_as (ready (some (ok (Message.text t)))) (WsMessage.binary u) e = cc
received_as (ready (some (ok (Message.binary b)))) (WsMessage.text u) e = cc
received_as (ready (some (ok (Message.binary b)))) (WsMessage.binary u) e = cc
received_as (ready (some (ok (ping b)))) m e = cc
received_as (ready (some (ok (pong b)))) m e = cc
received_as (ready (some (ok (close b)))) m e = cc
received_as (ready (some (ok (frame b)))) m e = cc
received_as (ready (some (err x))) m e = cc
received_as (ready none) m e = cc
received_as pending m e = cc

sent_as : (m : WsMessage) → poll_next (ready (some (ok (start_send m)))) ≡ ready (some (ok m))
unfolding poll_next start_send
sent_as (WsMessage.text t) = refl
sent_as (WsMessage.binary b) = refl

-- The stream yields a message just when the WebSocket layer gave what start_send makes of that
-- message.
pub poll_next_iff :
    (polled : Poll (Option (Result Message Text))) (m : WsMessage)
    → (poll_next polled ≡ ready (some (ok m))) ↔ (polled ≡ ready (some (ok (start_send m))))
poll_next_iff polled m = (received_as polled m, λ e. ap poll_next e ∙ sent_as m)
