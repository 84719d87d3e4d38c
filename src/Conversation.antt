-- ===== src/Conversation.antt =====
-- Requests and responses between the message loop of src/ws/client/connection_loop.rs and the session
-- of src/ws/server/session.rs, over the encrypted connection.
pub mod Calls
pub mod Ledger
pub mod Talk
pub mod Settling
pub mod Order
pub mod Heartbeat
pub mod Idle
pub mod Oversize
use notifiapp_transport.Common.{
  ℕ, suc, ◌≡◌, refl, sym, ap, ◌∙◌, subst, List, [], ◌∷◌, ◌++◌, map, Bool, true, false,
}
use notifiapp_transport.Scheduler.Levels.{MessagePriority}
use notifiapp_transport.Scheduler.Dequeue.{IsIdle}
use notifiapp_transport.Frame
use notifiapp_transport.Frame.{Frame, FrameKind, message}
use notifiapp_transport.Crypto.{Snow, NoiseSession}
use notifiapp_transport.Crypto.Transport.{Channel, online}
use notifiapp_transport.Wire.{Link, transmit}
use notifiapp_transport.Wire.Sending.{IsUp}
use notifiapp_transport.Wire.Receiving.{Completes, inbound}
use notifiapp_transport.Wire.EndToEnd.{IsLawful, transmit-Completes}
use notifiapp_transport.Ws.{Message, WsMessage}
use notifiapp_transport.Client.State
use notifiapp_transport.Client.State.{Client, dispatch_frame}
use notifiapp_transport.Client.Login.{Fits, IsDuplex, with_result}
use notifiapp_transport.Client.Loop
use notifiapp_transport.Client.Loop.{Loop}
use notifiapp_transport.Client.Single
use notifiapp_transport.Client.Delivery
use notifiapp_transport.Server.Session
use notifiapp_transport.Server.Session.{Session}
use notifiapp_transport.Server.Single as ServerSingle
use notifiapp_transport.Server.Delivery as ServerDelivery

module _ (snow : Snow) (ch : Channel snow) (server_env : Session.Setting snow)
    (env : Loop.Setting snow) where
  open server_env use {codec}

  -- Both ends have the codec.
  abbrev pub client_env : Loop.Setting snow
  client_env = record env { codec = codec }

  -- An end between two frames, with nothing to send, and its Noise state; the server waits for no
  -- pong.
  pub record ClientAt (t : snow.TransportState) (s : Loop snow) : Type 0 where
    pub noise : s.noise ≡ online snow t
    pub fresh : s.accumulator ≡ Frame.fresh
    pub idle : IsIdle s.scheduler

  pub record ServerAt (r : snow.TransportState) (z : Session snow) : Type 0 where
    pub noise : z.noise ≡ online snow r
    pub fresh : z.accumulator ≡ Frame.fresh
    pub idle : IsIdle z.scheduler
    pub calm : z.waiting_for_pong ≡ false

  -- Both are, and their Noise states agree.
  pub record Linked (s : Loop snow) (z : Session snow) : Type 0 where
    pub t : snow.TransportState
    pub r : snow.TransportState
    pub client : ClientAt t s
    pub server : ServerAt r z
    pub synced : ch.Synced t r

  abbrev pub with_client : Client → Loop snow → Loop snow
  with_client c s = record s { client = c }

  pub with_client-Linked :
      (c : Client) (s : Loop snow) (z : Session snow) → Linked s z → Linked (with_client c s) z
  with_client-Linked c s z l = record {
    t = l.t;
    r = l.r;
    client = record { noise = l.client.noise; fresh = l.client.fresh; idle = l.client.idle };
    server = l.server;
    synced = l.synced;
  }

  -- A frame from the client to the server.
  pub record Asked (f : Frame) (p : MessagePriority) (now : ℕ) (s : Loop snow) (z : Session snow)
      : Type 0 where
    pub packets : List (List ℕ)
    pub s' : Loop snow
    pub z' : Session snow
    pub sent : Loop.step snow client_env (now, Loop.command (State.send f p) []) s ≡ Loop.running s'
    pub on_wire : s'.wire.sent ≡ s.wire.sent ++ map WsMessage.binary packets
    pub arrived :
        Session.run snow server_env
          (map (ServerDelivery.packet_event snow server_env now) packets)
          z
        ≡ Session.running z'
    pub inbox : z'.inbox ≡ z.inbox ++ (f ∷ [])
    pub client_kept : s'.client ≡ s.client
    pub wire_kept : z'.wire ≡ z.wire
    pub offered : z'.offered ≡ suc z.offered
    pub linked : Linked s' z'

  -- A frame from the server to the client.
  pub record Answered (g : Frame) (p : MessagePriority) (now : ℕ) (s : Loop snow) (z : Session snow)
      : Type 0 where
    pub packets : List (List ℕ)
    pub s' : Loop snow
    pub z' : Session snow
    pub sent :
        Session.step snow server_env (now, Session.command (Session.send g p)) z
        ≡ Session.running z'
    pub on_wire : z'.wire.sent ≡ z.wire.sent ++ map Message.binary packets
    pub arrived :
        Loop.run snow client_env (map (Delivery.packet_event snow client_env now) packets) s
        ≡ Loop.running s'
    pub dispatched : s'.client ≡ dispatch_frame env.admits g s.client
    pub wire_kept : s'.wire ≡ s.wire
    pub inbox_kept : z'.inbox ≡ z.inbox
    pub offered : z'.offered ≡ z.offered
    pub linked : Linked s' z'

  pub client_inbound :
      (max : ℕ) (s : Loop snow) (t : snow.TransportState)
      → ClientAt t s
      → Delivery.inbound_of snow client_env s ≡ inbound codec snow max t Frame.fresh
  client_inbound max s t c = λ i. record { noise = c.noise i; accumulator = c.fresh i }

  pub server_inbound :
      (max : ℕ) (z : Session snow) (r : snow.TransportState)
      → ServerAt r z
      → ServerDelivery.inbound_of snow server_env z ≡ inbound codec snow max r Frame.fresh
  server_inbound max z r c = λ i. record { noise = c.noise i; accumulator = c.fresh i }

  module _ (lawful : IsLawful codec) (up : IsUp env.sink) (up' : IsUp server_env.sink)
      (duplex : IsDuplex snow ch) where
    pub ask-Asked :
        (f : Frame) (p : MessagePriority) (now : ℕ) (s : Loop snow) (z : Session snow)
        → ServerDelivery.IsApplication snow server_env f.kind
        → Fits codec server_env.max_bytes f
        → server_env.reader z.offered ≡ true
        → Linked s z
        → Asked f p now s z
    ask-Asked f p now s z k a reader l =
        let send = λ (n : NoiseSession snow).
          transmit codec snow env.sink WsMessage.binary f (record { noise = n; wire = s.wire }) in
        let (packets, t1, r1, done, noise, wire, completes, synced) =
          transmit-Completes codec snow ch env.sink WsMessage.binary server_env.max_bytes f
            a.payload l.t l.r s.wire up lawful a.serialised a.width a.admitted l.synced in
        let sent = (send (online snow l.t)).1 in
        let taken =
          subst
            (λ i.
              Completes codec snow server_env.max_bytes f i packets
                (inbound codec snow server_env.max_bytes r1 Frame.fresh))
            (sym (server_inbound server_env.max_bytes z l.r l.server)) completes in
        record {
          packets = packets;
          s' = record (Loop.with_link snow client_env s sent) {
            scheduler = Single.spent snow client_env f p s;
          };
          z' =
              ServerDelivery.delivered snow server_env now f
                (inbound codec snow server_env.max_bytes r1 Frame.fresh) z;
          sent =
              Single.step-single snow client_env now f p s sent l.client.idle
                (ap send l.client.noise ∙ with_result _ true done);
          on_wire = wire;
          arrived = ServerDelivery.run-Completes snow server_env now f z packets _ taken k reader;
          inbox = refl;
          client_kept = refl;
          wire_kept = refl;
          offered = refl;
          linked = record {
            t = t1;
            r = r1;
            client = record {
              noise = noise;
              fresh = l.client.fresh;
              idle = Single.spent-IsIdle snow client_env f p s l.client.idle;
            };
            server = record { noise = refl; fresh = refl; idle = l.server.idle; calm = refl };
            synced = synced;
          };
        }

    pub answer-Answered :
        (g : Frame) (p : MessagePriority) (now : ℕ) (s : Loop snow) (z : Session snow)
        → Fits codec env.max_payload_bytes g
        → Linked s z
        → Answered g p now s z
    answer-Answered g p now s z a l =
        let send = λ (n : NoiseSession snow).
          transmit codec snow server_env.sink Message.binary g
            (record { noise = n; wire = z.wire }) in
        let (packets, r1, t1, done, noise, wire, completes, synced) =
          transmit-Completes codec snow ch server_env.sink Message.binary env.max_payload_bytes g
            a.payload l.r l.t z.wire up' lawful a.serialised a.width a.admitted
            (duplex l.t l.r l.synced) in
        let sent = (send (online snow l.r)).1 in
        record {
          packets = packets;
          s' =
              Delivery.delivered snow client_env now g
                (inbound codec snow env.max_payload_bytes t1 Frame.fresh) s;
          z' = record (Session.with_link snow server_env z sent) {
            scheduler = ServerSingle.spent snow server_env g p z;
          };
          sent =
              ServerSingle.step-single snow server_env now g p z sent l.server.idle
                (ap send l.server.noise ∙ with_result _ true done);
          on_wire = wire;
          arrived =
              Delivery.run-Completes snow client_env now g s completes
                (client_inbound env.max_payload_bytes s l.t l.client);
          dispatched = refl;
          wire_kept = refl;
          inbox_kept = refl;
          offered = refl;
          linked = record {
            t = t1;
            r = r1;
            client = record { noise = refl; fresh = refl; idle = l.client.idle };
            server = record {
              noise = noise;
              fresh = l.server.fresh;
              idle = ServerSingle.spent-IsIdle snow server_env g p z l.server.idle;
              calm = l.server.calm;
            };
            synced = duplex r1 t1 synced;
          };
        }
