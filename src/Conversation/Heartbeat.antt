-- ===== src/Conversation/Heartbeat.antt =====
-- A heartbeat of the session of src/ws/server/session.rs, which the client of src/ws/client/mod.rs
-- answers by a pong.
use notifiapp_transport.Common.{
  ℕ, suc, ◌+◌, ◌≡◌, refl, ap, ◌∙◌, List, [], ◌∷◌, ◌++◌, map, true, false, none,
}
use notifiapp_transport.Scheduler.Levels.{real_time}
use notifiapp_transport.Frame
use notifiapp_transport.Frame.{Frame, FrameKind, ping, pong}
use notifiapp_transport.Crypto.{Snow, NoiseSession}
use notifiapp_transport.Crypto.Transport.{Channel, online}
use notifiapp_transport.Wire.{Link, transmit}
use notifiapp_transport.Wire.Sending.{IsUp}
use notifiapp_transport.Wire.Receiving.{inbound}
use notifiapp_transport.Wire.EndToEnd.{IsLawful, transmit-Completes}
use notifiapp_transport.Ws.{Message, WsMessage}
use notifiapp_transport.Client.State
use notifiapp_transport.Client.State.{Client, dispatch_frame}
use notifiapp_transport.Client.Login.{Fits, IsDuplex, with_result}
use notifiapp_transport.Client.Loop
use notifiapp_transport.Client.Loop.{Loop}
use notifiapp_transport.Client.Single
use notifiapp_transport.Client.Delivery
use notifiapp_transport.Server.Session
use notifiapp_transport.Server.Session.{Session, control_frame, on_heartbeat, route}
use notifiapp_transport.Server.Delivery as ServerDelivery
use notifiapp_transport.Conversation.{Linked, client_env, client_inbound}

module _ (snow : Snow) (ch : Channel snow) (server_env : Session.Setting snow)
    (env : Loop.Setting snow) where
  open server_env use {codec}

  abbrev client_side : Loop.Setting snow
  client_side = client_env snow ch server_env env

  -- The client once it has queued the pong.
  abbrev pub ponging : Client → Client
  ponging c = record c {
    tries = suc c.tries;
    commands = c.commands ++ (State.send (control_frame pong) real_time ∷ []);
  }

  -- The ping on its way there, and the pong on its way back.
  pub record Beat (now : ℕ) (s : Loop snow) (z : Session snow) : Type 0 where
    pub pings : List (List ℕ)
    pub z1 : Session snow
    pub fired : Session.step snow server_env (now, Session.heartbeat) z ≡ Session.running z1
    pub pings_sent : z1.wire.sent ≡ z.wire.sent ++ map Message.binary pings
    pub s1 : Loop snow
    pub pinged :
        Loop.run snow client_side (map (Delivery.packet_event snow client_side now) pings) s
        ≡ Loop.running s1
    pub queued : s1.client ≡ ponging s.client
    pub pongs : List (List ℕ)
    pub s' : Loop snow
    pub answered :
        Loop.step snow client_side
          (now, Loop.command (State.send (control_frame pong) real_time) [])
          s1
        ≡ Loop.running s'
    pub pongs_sent : s'.wire.sent ≡ s.wire.sent ++ map WsMessage.binary pongs
    pub client_kept : s'.client ≡ s1.client
    pub z' : Session snow
    pub ponged :
        Session.run snow server_env (map (ServerDelivery.packet_event snow server_env now) pongs) z1
        ≡ Session.running z'
    pub alive : z'.waiting_for_pong ≡ false
    pub deadline : z'.heartbeat_deadline ≡ now + server_env.heartbeat_interval
    pub inbox_kept : z'.inbox ≡ z.inbox
    pub linked : Linked snow ch server_env env s' z'

  fire :
      (now : ℕ) (z : Session snow) (l : Link snow Message)
      → z.waiting_for_pong ≡ false
      → transmit codec snow server_env.sink Message.binary
          (control_frame ping)
          (Session.link snow server_env z)
        ≡ (true, l)
      → Session.step snow server_env (now, Session.heartbeat) z
        ≡ Session.running (record (Session.with_link snow server_env z l) {
          waiting_for_pong = true;
          heartbeat_deadline = now + server_env.heartbeat_timeout;
        })
  unfolding Session.step on_heartbeat
  fire now z l w e = rw (w, e) refl

  try_send-room :
      (c : Client)
      → env.admits c.tries ≡ none
      → State.try_send env.admits (State.send (control_frame pong) real_time) c ≡ (none, ponging c)
  unfolding State.try_send
  try_send-room c a = rw (State.try_send, a) refl

  ping-ponging :
      (c : Client)
      → env.admits c.tries ≡ none
      → dispatch_frame env.admits (control_frame ping) c ≡ ponging c
  unfolding dispatch_frame
  ping-ponging c a = ap (λ r. r.1) (try_send-room c a)

  pong-route : (z : Session snow) → route snow server_env (control_frame pong) z ≡ Session.running z
  unfolding route
  pong-route z = refl

  module _ (lawful : IsLawful codec) (up : IsUp env.sink) (up' : IsUp server_env.sink)
      (duplex : IsDuplex snow ch) where
    -- While both sinks are up, the codec is lawful, the Noise ends agree in both directions, and a
    -- ping and a pong fit the limits: when the heartbeat timer of a session fires that is idle,
    -- waits for no pong and agrees with a message loop, and the channel of commands of the client
    -- takes its pong, the ping that the session sends makes the client queue a pong, the pong that
    -- the message loop sends ends the wait of the session and sets its timer anew, the inbox is as
    -- before, and both ends are idle and agree again.
    pub heartbeat-Beat :
        (now : ℕ) (s : Loop snow) (z : Session snow)
        → Fits codec env.max_payload_bytes (control_frame ping)
        → Fits codec server_env.max_bytes (control_frame pong)
        → env.admits s.client.tries ≡ none
        → Linked snow ch server_env env s z
        → Beat now s z
    heartbeat-Beat now s z f g room l =
        let send = λ (n : NoiseSession snow).
          transmit codec snow server_env.sink Message.binary (control_frame ping)
            (record { noise = n; wire = z.wire }) in
        let (pings, r1, t1, done, noise, wire, completes, synced) =
          transmit-Completes codec snow ch server_env.sink Message.binary env.max_payload_bytes
            (control_frame ping) f.payload l.r l.t z.wire up' lawful f.serialised f.width f.admitted
            (duplex l.t l.r l.synced) in
        let sent = (send (online snow l.r)).1 in
        let i1 = inbound codec snow env.max_payload_bytes t1 Frame.fresh in
        let s1 = Delivery.delivered snow client_side now (control_frame ping) i1 s in
        let back = λ (n : NoiseSession snow).
          transmit codec snow env.sink WsMessage.binary (control_frame pong)
            (record { noise = n; wire = s.wire }) in
        let (pongs, t2, r2, done2, noise2, wire2, completes2, synced2) =
          transmit-Completes codec snow ch env.sink WsMessage.binary server_env.max_bytes
            (control_frame pong) g.payload t1 r1 s.wire up lawful g.serialised g.width g.admitted
            (duplex r1 t1 synced) in
        let replied = (back (online snow t1)).1 in
        let i2 = inbound codec snow server_env.max_bytes r2 Frame.fresh in
        let z1 : Session snow = record (Session.with_link snow server_env z sent) {
          waiting_for_pong = true;
          heartbeat_deadline = now + server_env.heartbeat_timeout;
        } in
        record {
          pings = pings;
          z1 = z1;
          fired = fire now z sent l.server.calm (ap send l.server.noise ∙ with_result _ true done);
          pings_sent = wire;
          s1 = s1;
          pinged =
              Delivery.run-Completes snow client_side now (control_frame ping) s completes
                (client_inbound snow ch server_env env env.max_payload_bytes s l.t l.client);
          queued = ping-ponging s.client room;
          pongs = pongs;
          s' = record (Loop.with_link snow client_side s1 replied) {
            scheduler = Single.spent snow client_side (control_frame pong) real_time s1;
          };
          answered =
              Single.step-single snow client_side now (control_frame pong) real_time s1 replied
                l.client.idle (with_result _ true done2);
          pongs_sent = wire2;
          client_kept = refl;
          z' = ServerDelivery.refreshed snow server_env now i2 z1;
          ponged =
              ServerDelivery.run-route snow server_env now (control_frame pong) z1 completes2
                (λ i. record { noise = noise i; accumulator = l.server.fresh i })
              ∙ pong-route (ServerDelivery.refreshed snow server_env now i2 z1);
          alive = refl;
          deadline = refl;
          inbox_kept = refl;
          linked = record {
            t = t2;
            r = r2;
            client = record {
              noise = noise2;
              fresh = refl;
              idle =
                  Single.spent-IsIdle snow client_side (control_frame pong) real_time s1
                    l.client.idle;
            };
            server = record { noise = refl; fresh = refl; idle = l.server.idle; calm = refl };
            synced = synced2;
          };
        }
