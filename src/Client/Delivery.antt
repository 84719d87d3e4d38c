-- ===== src/Client/Delivery.antt =====
-- What the message loop of src/ws/client/connection_loop.rs makes of the packets of a frame.
use notifiapp_transport.Common.{ℕ, ◌+◌, ◌≡◌, refl, List, map, none, some, ok, false}
use notifiapp_transport.Frame.{Frame}
use notifiapp_transport.Crypto.{Snow}
use notifiapp_transport.Wire.Inbound.{Inbound, receive_chunk}
use notifiapp_transport.Wire.Receiving.{Completes, final, partial}
use notifiapp_transport.Ws.{WsMessage}
use notifiapp_transport.Client.State.{dispatch_frame}
use notifiapp_transport.Client.Loop.{
  Loop, Setting, Event, running, received, on_received, step, run,
}

module _ (snow : Snow) (env : Setting snow) where
  abbrev pub packet_event : ℕ → List ℕ → ℕ × Event
  packet_event now p = (now, received (some (ok (WsMessage.binary p))))

  abbrev pub inbound_of : Loop snow → Inbound snow
  inbound_of s = record { noise = s.noise; accumulator = s.accumulator }

  -- The loop behind a packet, and behind the packets of a frame.
  abbrev pub taken : ℕ → Inbound snow → Loop snow → Loop snow
  taken now i s = record s {
    noise = i.noise;
    accumulator = i.accumulator;
    heartbeat_deadline = now + env.heartbeat_interval;
    waiting_for_pong = false;
  }

  abbrev pub delivered : ℕ → Frame → Inbound snow → Loop snow → Loop snow
  delivered now f i s = record (taken now i s) { client = dispatch_frame env.admits f s.client }

  step-partial :
      (now : ℕ) (p : List ℕ) (s : Loop snow) (i : Inbound snow)
      → receive_chunk env.codec snow env.max_payload_bytes p (inbound_of s) ≡ (ok none, i)
      → step snow env (packet_event now p) s ≡ running (taken now i s)
  unfolding step on_received
  step-partial now p s i e = rw e

  step-final :
      (now : ℕ) (f : Frame) (p : List ℕ) (s : Loop snow) (i : Inbound snow)
      → receive_chunk env.codec snow env.max_payload_bytes p (inbound_of s) ≡ (ok (some f), i)
      → step snow env (packet_event now p) s ≡ running (delivered now f i s)
  unfolding step on_received
  step-final now f p s i e = rw e

  -- The packets of a frame, received in sequence, dispatch just that frame.
  pub run-Completes :
      (now : ℕ) (f : Frame) (s : Loop snow) {i i' : Inbound snow} {packets : List (List ℕ)}
      → Completes env.codec snow env.max_payload_bytes f i packets i'
      → inbound_of s ≡ i
      → run snow env (map (packet_event now) packets) s ≡ running (delivered now f i' s)
  unfolding run
  run-Completes now f s {i' = i'} (final {p = p} e) q = rw (step-final now f p s i' (rw (← q) at e))
  run-Completes now f s (partial {i' = j} {p = p} e c) q =
      rw (step-partial now p s j (rw (← q) at e)) (run-Completes now f (taken now j s) c refl)
