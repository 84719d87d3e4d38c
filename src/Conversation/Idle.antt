-- ===== src/Conversation/Idle.antt =====
-- A heartbeat of the message loop of src/ws/client/connection_loop.rs, and what the session of
-- src/ws/server/session.rs makes of it while its application sends nothing.
use notifiapp_transport.Common.{ℕ, suc, ◌+◌, ◌≡◌, refl, ap, ◌∙◌, List, ◌++◌, map, true, false}
use notifiapp_transport.Scheduler.{enqueue}
use notifiapp_transport.Scheduler.Levels.{real_time}
use notifiapp_transport.Frame
use notifiapp_transport.Frame.{ping, pong}
use notifiapp_transport.Crypto.{Snow, NoiseSession}
use notifiapp_transport.Crypto.Transport.{Channel, online}
use notifiapp_transport.Wire.{Link, transmit}
use notifiapp_transport.Wire.Sending.{IsUp}
use notifiapp_transport.Wire.Receiving.{inbound}
use notifiapp_transport.Wire.EndToEnd.{IsLawful, transmit-Completes}
use notifiapp_transport.Ws.{WsMessage}
use notifiapp_transport.Client.Login.{Fits, with_result}
use notifiapp_transport.Client.Loop
use notifiapp_transport.Client.Loop.{Loop, on_heartbeat}
use notifiapp_transport.Server.Session
use notifiapp_transport.Server.Session.{Session, control_frame, route}
use notifiapp_transport.Server.Delivery as ServerDelivery
use notifiapp_transport.Conversation.{Linked, client_env, server_inbound}

module _ (snow : Snow) (ch : Channel snow) (server_env : Session.Setting snow)
    (env : Loop.Setting snow) where
  open server_env use {codec}

  abbrev client_side : Loop.Setting snow
  client_side = client_env snow ch server_env env

  -- The ping goes out and is taken in; the pong stays in the scheduler, and the loop ends.
  pub record Unanswered (now later : ℕ) (s : Loop snow) (z : Session snow) : Type 0 where
    pub packets : List (List ℕ)
    pub s1 : Loop snow
    pub fired : Loop.step snow client_side (now, Loop.heartbeat) s ≡ Loop.running s1
    pub sent : s1.wire.sent ≡ s.wire.sent ++ map WsMessage.binary packets
    pub z' : Session snow
    pub taken :
        Session.run snow server_env
          (map (ServerDelivery.packet_event snow server_env now) packets)
          z
        ≡ Session.running z'
    pub queued : z'.scheduler ≡ enqueue (control_frame pong) real_time z.scheduler
    pub nothing_sent : z'.wire ≡ z.wire
    pub s' : Loop snow
    pub ended : Loop.step snow client_side (later, Loop.heartbeat) s1 ≡ Loop.broken s'

  fire :
      (now : ℕ) (s : Loop snow) (l : Link snow WsMessage)
      → s.waiting_for_pong ≡ false
      → transmit codec snow env.sink WsMessage.binary
          (control_frame ping)
          (Loop.link snow client_side s)
        ≡ (true, l)
      → Loop.step snow client_side (now, Loop.heartbeat) s
        ≡ Loop.running (record (Loop.with_link snow client_side s l) {
          waiting_for_pong = true;
          heartbeat_deadline = now + env.heartbeat_timeout;
        })
  unfolding Loop.step on_heartbeat
  fire now s l w e = rw (w, e) refl

  ping-route :
      (z : Session snow)
      → route snow server_env (control_frame ping) z
        ≡ Session.running
            (record z { scheduler = enqueue (control_frame pong) real_time z.scheduler })
  unfolding route
  ping-route z = refl

  end_of :
      (later : ℕ) (s : Loop snow)
      → s.waiting_for_pong ≡ true
      → Loop.step snow client_side (later, Loop.heartbeat) s
        ≡ Loop.broken (record s { closes = suc s.closes })
  unfolding Loop.step on_heartbeat
  end_of later s w = rw (w) refl

  -- While the sink of the client is up, the codec is lawful, and a ping fits the limit: when the
  -- heartbeat timer fires in a message loop that waits for no pong, and agrees with an idle
  -- session, the session takes the ping in, queues a pong and sends nothing, and the message loop
  -- ends when the timer fires again before anything else has come.
  pub idle-Unanswered :
      (now later : ℕ) (s : Loop snow) (z : Session snow)
      → IsLawful codec
      → IsUp env.sink
      → Fits codec server_env.max_bytes (control_frame ping)
      → s.waiting_for_pong ≡ false
      → Linked snow ch server_env env s z
      → Unanswered now later s z
  idle-Unanswered now later s z lawful up f quiet l =
      let send = λ (n : NoiseSession snow).
        transmit codec snow env.sink WsMessage.binary (control_frame ping)
          (record { noise = n; wire = s.wire }) in
      let (packets, t1, r1, done, noise, wire, completes, synced) =
        transmit-Completes codec snow ch env.sink WsMessage.binary server_env.max_bytes
          (control_frame ping) f.payload l.t l.r s.wire up lawful f.serialised f.width f.admitted
          l.synced in
      let sent = (send (online snow l.t)).1 in
      let i = inbound codec snow server_env.max_bytes r1 Frame.fresh in
      let s1 : Loop snow = record (Loop.with_link snow client_side s sent) {
        waiting_for_pong = true;
        heartbeat_deadline = now + env.heartbeat_timeout;
      } in
      let z1 = ServerDelivery.refreshed snow server_env now i z in
      record {
        packets = packets;
        s1 = s1;
        fired = fire now s sent quiet (ap send l.client.noise ∙ with_result _ true done);
        sent = wire;
        z' = record z1 { scheduler = enqueue (control_frame pong) real_time z.scheduler };
        taken =
            ServerDelivery.run-route snow server_env now (control_frame ping) z completes
              (server_inbound snow ch server_env env server_env.max_bytes z l.r l.server)
            ∙ ping-route z1;
        queued = refl;
        nothing_sent = refl;
        s' = record s1 { closes = suc s1.closes };
        ended = end_of later s1 refl;
      }
