-- ===== src/Server/Delivery.antt =====
-- What a peer's frames become in the session of src/ws/server/session.rs.
use notifiapp_transport.Common.{
  ℕ, suc, ◌+◌, ◌≡◌, refl, ◌∙◌, List, [], ◌∷◌, ◌++◌, map, true, false, none, some, ok,
}
use notifiapp_transport.Frame.{Frame, FrameKind, message, event, ping, pong}
use notifiapp_transport.Crypto.{Snow}
use notifiapp_transport.Wire.Inbound.{Inbound, receive_chunk}
use notifiapp_transport.Wire.Receiving.{Completes, final, partial}
use notifiapp_transport.Ws.{Message}
use notifiapp_transport.Server.Session.{
  Flow, stopped, and_then, Session, Setting, Event, received, running, step, run, on_received,
  route,
}

module _ (snow : Snow) (env : Setting snow) where
  abbrev pub packet_event : ℕ → List ℕ → ℕ × Event
  packet_event now p = (now, received (some (ok (Message.binary p))))

  abbrev pub inbound_of : Session snow → Inbound snow
  inbound_of s = record { noise = s.noise; accumulator = s.accumulator }

  -- A frame for the application.
  abbrev pub IsApplication : FrameKind → Type 0
  IsApplication message = Unit {0}
  IsApplication event = Unit {0}
  IsApplication ping = ⊥
  IsApplication pong = ⊥

  -- The session after the packets of a frame.
  abbrev pub delivered : ℕ → Frame → Inbound snow → Session snow → Session snow
  delivered now f i s = record s {
    noise = i.noise;
    accumulator = i.accumulator;
    heartbeat_deadline = now + env.heartbeat_interval;
    waiting_for_pong = false;
    inbox = s.inbox ++ (f ∷ []);
    offered = suc s.offered;
  }

  route-application :
      (f : Frame) (k : FrameKind) (s : Session snow)
      → f.kind ≡ k
      → IsApplication k
      → env.reader s.offered ≡ true
      → route snow env f s
        ≡ running (record s { inbox = s.inbox ++ (f ∷ []); offered = suc s.offered })
  unfolding route
  route-application f message s e a r = rw (e, r)
  route-application f event s e a r = rw (e, r)
  route-application f ping s e a r = absurd a
  route-application f pong s e a r = absurd a

  abbrev pub refreshed : ℕ → Inbound snow → Session snow → Session snow
  refreshed now i s = record s {
    noise = i.noise;
    accumulator = i.accumulator;
    heartbeat_deadline = now + env.heartbeat_interval;
    waiting_for_pong = false;
  }

  -- One packet, from what it makes of the inbound state.
  step-partial :
      (now : ℕ) (p : List ℕ) (s : Session snow) (i : Inbound snow)
      → receive_chunk env.codec snow env.max_bytes p (inbound_of s) ≡ (ok none, i)
      → step snow env (packet_event now p) s ≡ running (refreshed now i s)
  unfolding step on_received
  step-partial now p s i e = rw e

  step-final :
      (now : ℕ) (f : Frame) (p : List ℕ) (s : Session snow) (i : Inbound snow)
      → receive_chunk env.codec snow env.max_bytes p (inbound_of s) ≡ (ok (some f), i)
      → step snow env (packet_event now p) s ≡ route snow env f (refreshed now i s)
  unfolding step on_received
  step-final now f p s i e = rw e

  and_then-running : (r : Flow (Session snow)) → and_then snow env r (λ s. running s) ≡ r
  and_then-running (running s) = refl
  and_then-running (stopped s) = refl

  -- The packets of a frame, received in sequence, route just that frame.
  pub run-route :
      (now : ℕ) (f : Frame) (s : Session snow) {i i' : Inbound snow} {packets : List (List ℕ)}
      → Completes env.codec snow env.max_bytes f i packets i'
      → inbound_of s ≡ i
      → run snow env (map (packet_event now) packets) s ≡ route snow env f (refreshed now i' s)
  unfolding run
  run-route now f s {i' = i'} (final {p = p} e) q =
      rw (step-final now f p s i' (rw (← q) at e)) (and_then-running _)
  run-route now f s (partial {i' = j} {p = p} e c) q =
      rw (step-partial now p s j (rw (← q) at e)) (run-route now f (refreshed now j s) c refl)

  -- The packets of one application frame, received in sequence by a server session whose inbox has
  -- a reader, append just that frame to the inbox, send nothing and reset the heartbeat.
  pub run-Completes :
      (now : ℕ) (f : Frame) (s : Session snow) (packets : List (List ℕ)) (i' : Inbound snow)
      → Completes env.codec snow env.max_bytes f (inbound_of s) packets i'
      → IsApplication f.kind
      → env.reader s.offered ≡ true
      → run snow env (map (packet_event now) packets) s ≡ running (delivered now f i' s)
  run-Completes now f s packets i' c a r =
      run-route now f s c refl ∙ route-application f f.kind (refreshed now i' s) refl a r
