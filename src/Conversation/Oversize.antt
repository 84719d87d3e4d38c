-- ===== src/Conversation/Oversize.antt =====
-- A frame that the message loop of src/ws/client/connection_loop.rs sends, and that is longer than
-- the session of src/ws/server/session.rs admits.
use notifiapp_transport.Common.{
  ℕ, ◌^◌, ◌<◌, ◌≡◌, refl, ap, ◌∙◌, List, [], ◌∷◌, ◌++◌, map, length, true, ok, err,
}
use notifiapp_transport.Error.{payload_too_large}
use notifiapp_transport.Scheduler.Levels.{MessagePriority}
use notifiapp_transport.Frame
use notifiapp_transport.Frame.{Frame}
use notifiapp_transport.Frame.Oversize.{refused, feed-Cuts}
use notifiapp_transport.Crypto.{Snow, NoiseSession}
use notifiapp_transport.Crypto.Transport.{Channel, online, Opens, read-opened}
use notifiapp_transport.Wire.{transmit}
use notifiapp_transport.Wire.Sending.{IsUp, transmit-Sent}
use notifiapp_transport.Wire.Receiving.{inbound}
use notifiapp_transport.Wire.Inbound.{Inbound, malformed, receive_chunk}
use notifiapp_transport.Ws.{WsMessage}
use notifiapp_transport.Client.Login.{with_result}
use notifiapp_transport.Client.State
use notifiapp_transport.Client.Loop
use notifiapp_transport.Client.Loop.{Loop}
use notifiapp_transport.Client.Single
use notifiapp_transport.Server.Session
use notifiapp_transport.Server.Session.{Session, Event, step, run, on_received}
use notifiapp_transport.Server.Delivery.{packet_event, inbound_of, refreshed}
use notifiapp_transport.Conversation.{Linked, client_env, server_inbound}

-- The packet that carries the first piece.
opens-first :
    (snow : Snow) {r r' : snow.TransportState} {packets plains others : List (List ℕ)}
    {first : List ℕ}
    → Opens snow r packets plains r'
    → plains ≡ first ∷ others
    → (p : List ℕ) × (rest : List (List ℕ)) × (r1 : snow.TransportState) × (packets ≡ p ∷ rest)
      × (snow.transport_read r p (length p) ≡ ok (first, r1))
opens-first snow Opens.done e = cc
opens-first snow (Opens.next {r' = r1} {packet = p} {packets = rest} o os) e =
    (p, rest, r1, refl, cc)

module _ (snow : Snow) (ch : Channel snow) (server_env : Session.Setting snow)
    (env : Loop.Setting snow) where
  open server_env use {codec}

  -- The frame goes out whole. Its first packet ends the session, whatever comes after it; the
  -- application of the server gets nothing and nothing is sent back.
  pub record Overrun (f : Frame) (p : MessagePriority) (now : ℕ) (later : List (ℕ × Event))
      (s : Loop snow) (z : Session snow) : Type 0 where
    pub packets : List (List ℕ)
    pub s' : Loop snow
    pub z' : Session snow
    pub sent :
        Loop.step snow (client_env snow ch server_env env) (now, Loop.command (State.send f p) []) s
        ≡ Loop.running s'
    pub on_wire : s'.wire.sent ≡ s.wire.sent ++ map WsMessage.binary packets
    pub client_kept : s'.client ≡ s.client
    pub arrived :
        run snow server_env (map (packet_event snow server_env now) packets ++ later) z
        ≡ Session.stopped z'
    pub inbox_kept : z'.inbox ≡ z.inbox
    pub wire_kept : z'.wire ≡ z.wire

  receive_chunk-refused :
      (n : ℕ) (packet first : List ℕ) (r r1 : snow.TransportState)
      → snow.transport_read r packet (length packet) ≡ ok (first, r1)
      → Frame.feed Frame.fresh first server_env.max_bytes
        ≡ (err (payload_too_large server_env.max_bytes), refused server_env.max_bytes n)
      → receive_chunk codec snow server_env.max_bytes packet
          (inbound codec snow server_env.max_bytes r Frame.fresh)
        ≡ (
          err (malformed (payload_too_large server_env.max_bytes)),
          record { noise = online snow r1; accumulator = refused server_env.max_bytes n },
        )
  unfolding receive_chunk
  receive_chunk-refused n packet first r r1 o e =
      rw (read-opened snow r r1 first packet (length packet) o, e) refl

  run-refused :
      (now : ℕ) (packet : List ℕ) (es : List (ℕ × Event)) (z : Session snow) (i : Inbound snow)
      → receive_chunk codec snow server_env.max_bytes packet (inbound_of snow server_env z)
        ≡ (err (malformed (payload_too_large server_env.max_bytes)), i)
      → run snow server_env (packet_event snow server_env now packet ∷ es) z
        ≡ Session.stopped (refreshed snow server_env now i z)
  unfolding run step on_received
  run-refused now packet es z i e = rw e refl

  -- While the sink of the client is up: when an idle message loop sends a frame whose encoding is
  -- longer than the session that it agrees with admits, but below 2 ^ 32 bytes, the frame goes out
  -- whole, its packets end the session whatever comes after them, the inbox of the server gets
  -- nothing, the server sends nothing, and the client is as before, so that its pending requests
  -- stay pending.
  pub ask-Overrun :
      (f : Frame) (p : MessagePriority) (payload : List ℕ) (now : ℕ) (later : List (ℕ × Event))
      (s : Loop snow) (z : Session snow)
      → IsUp env.sink
      → codec.to_stdvec f ≡ ok payload
      → length payload < 2 ^ 32
      → server_env.max_bytes < length payload
      → Linked snow ch server_env env s z
      → Overrun f p now later s z
  ask-Overrun f p payload now later s z up e width over l =
      let send = λ (n : NoiseSession snow).
        transmit codec snow env.sink WsMessage.binary f (record { noise = n; wire = s.wire }) in
      let m =
        transmit-Sent codec snow ch env.sink WsMessage.binary f payload l.t l.r s.wire up e
          l.synced in
      let sent = (send (online snow l.t)).1 in
      let (packet, rest, r1, split, opened) = opens-first snow m.opens m.cuts.split in
      let i : Inbound snow = record {
        noise = online snow r1;
        accumulator = refused server_env.max_bytes (length payload);
      } in
      let refusal =
        receive_chunk-refused (length payload) packet m.cuts.first l.r r1 opened
          (feed-Cuts server_env.max_bytes payload m.chunked m.cuts width over) in
      let before = server_inbound snow ch server_env env server_env.max_bytes z l.r l.server in
      record {
        packets = m.packets;
        s' = record (Loop.with_link snow (client_env snow ch server_env env) s sent) {
          scheduler = Single.spent snow (client_env snow ch server_env env) f p s;
        };
        z' = refreshed snow server_env now i z;
        sent =
            Single.step-single snow (client_env snow ch server_env env) now f p s sent l.client.idle
              (ap send l.client.noise ∙ with_result _ true m.done);
        on_wire = m.wire;
        client_kept = refl;
        arrived =
            ap (λ ps. run snow server_env (map (packet_event snow server_env now) ps ++ later) z)
              split
            ∙ run-refused now packet (map (packet_event snow server_env now) rest ++ later) z i
                (ap (λ j. receive_chunk codec snow server_env.max_bytes packet j) before ∙ refusal);
        inbox_kept = refl;
        wire_kept = refl;
      }
