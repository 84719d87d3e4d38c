-- ===== src/Ws/Gloo.antt =====
-- src/ws/client/stream.rs in the build for wasm32, over the WebSocket of gloo_net.
use notifiapp_transport.Common.{
  List, ℕ, Option, none, some, Text, Result, ok, err, map_err, ◌≡◌, refl, ◌↔◌, ap, ◌∙◌,
}
use notifiapp_transport.Ws.{WsMessage, Poll, ready, pending, poll_unit}

pub data Message : Type 0 where
  text : Text → Message
  bytes : List ℕ → Message

unfoldable pub connect : {Socket E : Type 0} → (E → Text) → Result Socket E → Result Socket Text
connect to_string opened = map_err to_string opened

-- Nothing is closed.
unfoldable pub close : Result (Unit {0}) Text
close = ok tt

unfoldable pub poll_next :
    {E : Type 0}
    → (E → Text)
    → Poll (Option (Result Message E))
    → Poll (Option (Result WsMessage Text))
poll_next to_string (ready (some (ok (Message.text t)))) = ready (some (ok (WsMessage.text t)))
poll_next to_string (ready (some (ok (bytes b)))) = ready (some (ok (WsMessage.binary b)))
poll_next to_string (ready (some (err e))) = ready (some (err (to_string e)))
poll_next to_string (ready none) = ready none
poll_next to_string pending = pending

unfoldable pub start_send : WsMessage → Message
start_send (WsMessage.text t) = Message.text t
start_send (WsMessage.binary b) = bytes b

-- With the errors as texts.
unfoldable pub poll_ready :
    {E : Type 0} → (E → Text) → Poll (Result (Unit {0}) E) → Poll (Result (Unit {0}) Text)
poll_ready to_string polled = poll_unit to_string polled

unfoldable pub poll_flush :
    {E : Type 0} → (E → Text) → Poll (Result (Unit {0}) E) → Poll (Result (Unit {0}) Text)
poll_flush to_string polled = poll_unit to_string polled

unfoldable pub poll_close :
    {E : Type 0} → (E → Text) → Poll (Result (Unit {0}) E) → Poll (Result (Unit {0}) Text)
poll_close to_string polled = poll_unit to_string polled

module _ {E : Type 0} (to_string : E → Text) where
  received_as :
      (polled : Poll (Option (Result Message E))) (m : WsMessage)
      → poll_next to_string polled ≡ ready (some (ok m))
      → polled ≡ ready (some (ok (start_send m)))
  unfolding poll_next start_send
  received_as (ready (some (ok (Message.text t)))) (WsMessage.text u) e = cc
  received_as (ready (some (ok (Message.text t)))) (WsMessage.binary u) e = cc
  received_as (ready (some (ok (bytes b)))) (WsMessage.text u) e = cc
  received_as (ready (some (ok (bytes b)))) (WsMessage.binary u) e = cc
  received_as (ready (some (err x))) m e = cc
  received_as (ready none) m e = cc
  received_as pending m e = cc

  sent_as :
      (m : WsMessage) → poll_next to_string (ready (some (ok (start_send m)))) ≡ ready (some (ok m))
  unfolding poll_next start_send
  sent_as (WsMessage.text t) = refl
  sent_as (WsMessage.binary b) = refl

  -- The stream yields a message just when the WebSocket gave what start_send makes of it.
  poll_next_bytes_iff :
      (polled : Poll (Option (Result Message E))) (m : WsMessage)
      → (poll_next to_string polled ≡ ready (some (ok m)))
        ↔ (polled ≡ ready (some (ok (start_send m))))
  poll_next_bytes_iff polled m = (received_as polled m, λ e. ap (poll_next to_string) e ∙ sent_as m)
