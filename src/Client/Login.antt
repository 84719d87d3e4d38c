-- ===== src/Client/Login.antt =====
-- `handle_auth` of src/ws/client/connection_loop.rs, and the authentication of a client by a server's
-- session, src/ws/server/session.rs.
pub mod Steps
pub use Steps.{SameCalls, auth_frame, verdict, published, with_result}
use Steps.{sent_link, judge-verdict, handle_auth-steps}
use notifiapp_transport.Common.{
  append-nil, ◌%◌, ℕ, ◌^◌, ◌<◌, ◌≤◌, ◌≡◌, refl, sym, ap, ◌∙◌, subst, List, [], ◌∷◌, ◌++◌, map,
  length, Bool, true, false, some, Result, ok, err,
}
use notifiapp_transport.Error
use notifiapp_transport.Error.{TransportError, connection_closed}
use notifiapp_transport.State
use notifiapp_transport.State.{ConnectionState, waiting_for_auth}
use notifiapp_transport.Auth.{AuthHandler, AuthOutcome, success, failed, retry_with_new_payload}
use notifiapp_transport.Frame.{Frame, message, Postcard, encode_frame, to_le_bytes, fresh}
use notifiapp_transport.Crypto.{Snow, NoiseSession}
use notifiapp_transport.Crypto.Transport.{Channel, online}
use notifiapp_transport.Wire.{Sink, Wire, Link, send_encrypted, transmit}
use notifiapp_transport.Wire.Sending.{IsUp}
use notifiapp_transport.Wire.Inbound.{Inbound}
use notifiapp_transport.Wire.Receiving.{Completes, inbound}
use notifiapp_transport.Wire.EndToEnd.{IsLawful, transmit-Completes}
use notifiapp_transport.Ws.{Message, WsMessage}
use notifiapp_transport.Server.Session.{Session, Setting, running, run, link}
use notifiapp_transport.Server.Delivery.{packet_event, inbound_of, delivered, run-Completes}
use notifiapp_transport.Client.State.{Client, publish}
use notifiapp_transport.Client.Receive.{Incoming, packet_message, recv_one_frame-Completes}
use notifiapp_transport.Client.Config.{WsClientConfig}
use notifiapp_transport.Client.Handshake.{Conn}
use notifiapp_transport.Client.Secure.{
  Securing, encode_auth, send_auth, await_auth, judge, publish_state, handle_auth,
}

-- A frame that the codec serialises, within the limits.
pub record Fits (codec : Postcard) (max_bytes : ℕ) (frame : Frame) : Type 0 where
  pub payload : List ℕ
  pub serialised : codec.to_stdvec frame ≡ ok payload
  pub width : length payload < 2 ^ 32
  pub admitted : length payload ≤ max_bytes

encode_frame-Fits :
    (codec : Postcard) (max_bytes : ℕ) (frame : Frame)
    → Fits codec max_bytes frame
    → (encoded : List ℕ) × (encode_frame codec frame ≡ ok encoded)
unfolding encode_frame
encode_frame-Fits codec max_bytes frame f =
    (to_le_bytes (length f.payload % 2 ^ 32) ++ f.payload, rw f.serialised refl)

transmit-encoded :
    (codec : Postcard) (snow : Snow) {M : Type 0} (sink : Sink) (binary : List ℕ → M)
    (frame : Frame) (encoded : List ℕ) (l : Link snow M)
    → encode_frame codec frame ≡ ok encoded
    → transmit codec snow sink binary frame l ≡ send_encrypted codec snow sink binary encoded l
unfolding transmit
transmit-encoded codec snow sink binary frame encoded l e = rw (transmit, e) refl

-- Both directions of a connection agree.
abbrev pub IsDuplex : (snow : Snow) → Channel snow → Type 0
IsDuplex snow ch = (t r : snow.TransportState) → ch.Synced t r → ch.Synced r t

module _ (snow : Snow) (ch : Channel snow) (env : Setting snow) (client_sink : Sink)
    (config : WsClientConfig) where
  -- The result, the states published and what is put on the wire.
  pub record Authenticated (auth : AuthHandler) (payload response : List ℕ) (k : Conn)
      (rest : Incoming) (t : snow.TransportState) (now : ℕ) (s : Session snow) : Type 0 where
    pub packets : List (List ℕ)
    pub replies : List (List ℕ)
    pub s' : Session snow
    pub received : run snow env (map (packet_event snow env now) packets) s ≡ running s'
    pub inbox : s'.inbox ≡ s.inbox ++ (auth_frame payload ∷ [])
    pub answered :
        (transmit env.codec snow env.sink Message.binary
          (auth_frame response)
          (link snow env s')).1.wire.sent
        ≡ s.wire.sent ++ map Message.binary replies
    pub k' : Securing snow
    pub result :
        handle_auth env.codec snow client_sink config auth true (record {
          noise = online snow t;
          conn = record k {
            incoming = map (packet_message env.codec snow config.max_payload_bytes) replies ++ rest;
          };
        })
        ≡ (verdict (auth.process_auth_response response), k')
    pub states :
        k'.conn.client.states
        ≡ (k.client.states ++ (waiting_for_auth ∷ []))
          ++ published (auth.process_auth_response response)
    pub sent : k'.conn.wire.sent ≡ k.wire.sent ++ map WsMessage.binary packets
    pub calls : SameCalls k.client k'.conn.client
    -- Both ends agree again.
    pub client_end : snow.TransportState
    pub server_end : snow.TransportState
    pub client_noise : k'.noise ≡ online snow client_end
    pub server_done :
        (transmit env.codec snow env.sink Message.binary (auth_frame response) (link snow env s')).0
        ≡ true
    pub server_noise :
        (transmit env.codec snow env.sink Message.binary
          (auth_frame response)
          (link snow env s')).1.noise
        ≡ online snow server_end
    pub accumulator : s'.accumulator ≡ fresh
    pub scheduler : s'.scheduler ≡ s.scheduler
    pub calm : s'.waiting_for_pong ≡ false
    pub agreed : ch.Synced client_end server_end

  -- While both sinks are up, the codec is lawful, the Noise ends agree in both directions, the
  -- payload and the response fit the limits, and the inbox has a reader: the packets that the
  -- client sends for its payload put just that payload into the inbox of a fresh session, and with
  -- the packets that the session sends for a response, handle_auth ends with the verdict of the
  -- handler on that response, having published WaitingForAuth and, for Unauthorized only,
  -- Unauthorized.
  pub handle_auth-Authenticated :
      (auth : AuthHandler) (payload response : List ℕ) (k : Conn) (rest : Incoming)
      (t r : snow.TransportState) (now : ℕ) (s : Session snow)
      → auth.auth_payload ≡ some payload
      → Fits env.codec env.max_bytes (auth_frame payload)
      → Fits env.codec config.max_payload_bytes (auth_frame response)
      → IsLawful env.codec
      → IsUp client_sink
      → IsUp env.sink
      → IsDuplex snow ch
      → ch.Synced t r
      → inbound_of snow env s ≡ inbound env.codec snow env.max_bytes r fresh
      → env.reader s.offered ≡ true
      → Authenticated auth payload response k rest t now s
  unfolding publish
  handle_auth-Authenticated auth payload response k rest t r now s a f g lawful up up' duplex synced
        fr reader =
      let (packets, t1, r1, done, noise, wire, completes, synced1) =
        transmit-Completes env.codec snow ch client_sink WsMessage.binary env.max_bytes
          (auth_frame payload) f.payload t r k.wire up lawful f.serialised f.width f.admitted
          synced in
      let s1 =
        delivered snow env now (auth_frame payload) (inbound env.codec snow env.max_bytes r1 fresh)
          s in
      let (replies, t2, r2, done2, noise2, wire2, completes2, synced2) =
        transmit-Completes env.codec snow ch env.sink Message.binary config.max_payload_bytes
          (auth_frame response) g.payload r1 t1 s.wire up' lawful g.serialised g.width g.admitted
          (duplex t1 r1 synced1) in
      let (encoded, e) = encode_frame-Fits env.codec env.max_bytes (auth_frame payload) f in
      let sent =
        sym (
          transmit-encoded env.codec snow client_sink WsMessage.binary (auth_frame payload) encoded
            _ e)
        ∙ sent_link _ (online snow t1) done noise in
      let answer = auth.process_auth_response response in
      let taken =
        subst
          (λ i.
            Completes env.codec snow env.max_bytes (auth_frame payload) i packets
              (inbound env.codec snow env.max_bytes r1 fresh))
          (sym fr) completes in
      let steps =
        handle_auth-steps env.codec snow client_sink config auth payload encoded
          (auth_frame response) replies rest (online snow t) k _ _ a e sent refl completes2 in
      let wire' =
        (transmit env.codec snow client_sink WsMessage.binary (auth_frame payload)
          (record { noise = online snow t; wire = k.wire })).1.wire in
      let s2 : Securing snow = record {
        noise = online snow r2;
        conn = record { client = publish waiting_for_auth k.client; incoming = rest; wire = wire' };
      } in
      let last = judge env.codec snow client_sink config answer s2 in
      let judged = judge-verdict env.codec snow client_sink config answer s2 in
      record {
        packets = packets;
        replies = replies;
        s' = s1;
        received = run-Completes snow env now (auth_frame payload) s packets _ taken tt reader;
        inbox = refl;
        answered = wire2;
        k' = last.1;
        result = steps ∙ with_result last (verdict answer) judged.0;
        states = judged.1;
        sent = ap (λ w. w.sent) judged.2 ∙ wire;
        calls = judged.4;
        client_end = r2;
        server_end = t2;
        client_noise = judged.3;
        server_done = done2;
        server_noise = noise2;
        accumulator = refl;
        scheduler = refl;
        calm = refl;
        agreed = duplex t2 r2 synced2;
      }
