-- ===== src/Establishment.antt =====
-- A client of src/ws/client/ and a server of src/ws/server/ that come online together: the version
-- handshake, the Noise handshake and the authentication in one run of both.
pub mod Arrival
pub mod Refusal
pub mod Service
pub mod Talk
use notifiapp_transport.Common.{
  ℕ, ◌≡◌, refl, ap, ◌∙◌, List, [], ◌∷◌, ◌++◌, map, true, some, Result, ok, Text, codes,
}
use notifiapp_transport.State.{connecting, handshaking, authenticating, waiting_for_auth}
use notifiapp_transport.Auth.{AuthHandler, success}
use notifiapp_transport.Crypto.{Snow, NoiseSession}
use notifiapp_transport.Crypto.Pattern.{Handshake}
use notifiapp_transport.Crypto.Transport.{Channel, online}
use notifiapp_transport.Wire.{Wire, transmit}
use notifiapp_transport.Wire.Sending.{IsUp}
use notifiapp_transport.Wire.EndToEnd.{IsLawful}
use notifiapp_transport.Ws.{Message, WsMessage}
use notifiapp_transport.Client.State.{publish}
use notifiapp_transport.Client.Receive.{Incoming, packet_message}
use notifiapp_transport.Client.Config.{WsClientConfig}
use notifiapp_transport.Client.Handshake.{Conn, hello}
use notifiapp_transport.Client.Secure.{Securing, handle_auth}
use notifiapp_transport.Error.{TransportError}
use notifiapp_transport.Client.Loop
use notifiapp_transport.Client.Loop.{Loop}
use notifiapp_transport.Client.Connection.{
  Background, Pass, connect, go_online, with_client, tell, authenticated,
}
use notifiapp_transport.Client.Online.{handle_version_handshake-accepted, connect-authenticated}
use notifiapp_transport.Client.Login.{
  SameCalls, with_result, auth_frame, Fits, IsDuplex, handle_auth-Authenticated, verdict,
}
use notifiapp_transport.Server.Config.{WsServerConfig}
use notifiapp_transport.Server.Accept.{proceed, accept}
use notifiapp_transport.Server.Launch.{setting, new_handle, launch, accept_ws_session}
use notifiapp_transport.Server.Online.{IsCompatible, greetings, replies, accept-online}
use notifiapp_transport.Server.NoiseAgreement.{with_sent, handle_noise_handshake-online}
use notifiapp_transport.Server.Session
use notifiapp_transport.Server.Session.{Session, running, run, start, link}
use notifiapp_transport.Server.Single.{spent, step-single, spent-IsIdle}
use notifiapp_transport.Scheduler.Levels.{normal}
use notifiapp_transport.Scheduler.Dequeue.{IsIdle}
use notifiapp_transport.Scheduler.Single.{new-IsIdle}
use notifiapp_transport.Conversation.{Linked}
use notifiapp_transport.State.{online as online_state}
use notifiapp_transport.Common.{subst, sym, true}
use notifiapp_transport.Server.Delivery.{packet_event}
use notifiapp_transport.Establishment.Arrival.{
  server_env, client_env, pass_of, stream, first_session, started_loop, greeted, secured, Arrived,
  connect-Arrived,
}

one_by_one :
    {A : Type 0} (a b c d : A) (xs : List A)
    → ((((xs ++ (a ∷ [])) ++ (b ∷ [])) ++ (c ∷ [])) ++ (d ∷ [])) ++ [] ≡ xs ++ (a ∷ b ∷ c ∷ d ∷ [])
one_by_one a b c d [] = refl
one_by_one a b c d (x ∷ xs) = ap (◌∷◌ x) (one_by_one a b c d xs)

module _ (snow : Snow) (ch : Channel snow) (net : Session.Setting snow) (env : Loop.Setting snow)
    (client : WsClientConfig) (server : WsServerConfig)
    (x : Handshake snow ch client.noise_server_key server.noise_private_key)
    (auth : AuthHandler) where
  open net use {codec, sink}

  abbrev server_side : Session.Setting snow
  server_side = server_env snow ch net env client server x auth

  abbrev client_side : Loop.Setting snow
  client_side = client_env snow ch net env client server x auth

  -- What is sent either way, and how far both ends come with it.
  pub record Established (payload response : List ℕ) (p : Pass) (b : Background) (rest : Incoming)
      (server_rest : List (Result Message Text)) (w : Wire Message) (started now : ℕ) : Type 0 where
    pub packets : List (List ℕ)
    pub answers : List (List ℕ)
    pub session : Session snow
    pub session' : Session snow
    pub conn : Conn
    pub noise : NoiseSession snow
    pub accepted :
        accept_ws_session snow net server started (record {
          incoming = greetings codec snow ch sink env.sink client server x server_rest;
          wire = w;
        })
        ≡ (
          ok (new_handle, first_session snow ch net env client server x auth started w),
          record {
            incoming = server_rest;
            wire = replies codec snow ch sink env.sink client server x w;
          },
        )
    pub received :
        run snow server_side
          (map (packet_event snow server_side now) packets)
          (first_session snow ch net env client server x auth started w)
        ≡ running session
    pub inbox : session.inbox ≡ auth_frame payload ∷ []
    pub inbox_kept : session'.inbox ≡ session.inbox
    pub calls : SameCalls b.client conn.client
    pub answered :
        Session.step snow server_side
          (now, Session.command (Session.send (auth_frame response) normal))
          session
        ≡ running session'
    pub answers_sent :
        session'.wire.sent
        ≡ (replies codec snow ch sink env.sink client server x w).sent ++ map Message.binary answers
    pub attempt :
        Arrived snow ch net env client server x auth answers p b rest
          (ok tt, record { noise = noise; conn = conn })
    pub connected :
        connect snow client_side client auth
          (pass_of snow ch net env client server x auth answers rest p)
          b
        ≡ go_online snow client_side client auth
            (pass_of snow ch net env client server x auth answers rest p)
            (with_client b conn.client)
            noise
            conn.wire
    pub states :
        conn.client.states
        ≡ b.client.states ++ (connecting ∷ handshaking ∷ authenticating ∷ waiting_for_auth ∷ [])
    pub sent :
        conn.wire.sent
        ≡ WsMessage.text (hello env.sink client)
          ∷ WsMessage.binary x.first
          ∷ WsMessage.binary x.last
          ∷ map WsMessage.binary packets
    -- The message loop that starts then is ready for the session.
    pub linked :
        Linked snow ch server_side client_side
          (started_loop snow ch net env client server x auth p.online_at conn noise)
          session'

  -- While both sinks are up, with a lawful codec, a snow that completes its handshake and agrees
  -- in both directions, configurations of one name and one validated version, a payload and a
  -- response that fit the limits, a handler that takes that response, and a reader of the inbox:
  -- accept_ws_session takes the messages that the client sends up to its handshake and starts a
  -- session with a single handle, that session puts the authentication payload into its inbox from
  -- the packets of the client and sends the response, and an attempt of the client that gets the
  -- messages of the server in time goes through its version handshake, its Noise handshake and its
  -- authentication, each on the connection that the one before left, and goes online, having
  -- published the four states on the way in order and sent just the greeting, the two messages of
  -- its handshake and those packets; its message loop and the session then agree and are idle.
  pub connect-Established :
      (payload response : List ℕ) (p : Pass) (b : Background) (rest : Incoming)
      (server_rest : List (Result Message Text)) (w : Wire Message) (started now : ℕ)
      → IsCompatible client server
      → auth.auth_payload ≡ some payload
      → auth.process_auth_response response ≡ success
      → Fits codec server.max_payload_bytes (auth_frame payload)
      → Fits codec client.max_payload_bytes (auth_frame response)
      → IsLawful codec
      → IsUp env.sink
      → IsUp sink
      → IsDuplex snow ch
      → net.reader 0 ≡ true
      → Established payload response p b rest server_rest w started now
  unfolding start publish Loop.start accept_ws_session accept authenticated
  connect-Established payload response p b rest server_rest w started now c a succ f g lawful up up'
        duplex reader =
      let s0 = first_session snow ch net env client server x auth started w in
      let z =
        handle_auth-Authenticated snow ch server_side env.sink client auth payload response
          (secured snow ch net env client server x auth b) rest x.t x.r now s0 a f g lawful up up'
          duplex x.synced refl reader in
      let idle = subst (λ sch. IsIdle sch) (sym z.scheduler) new-IsIdle in
      let link' =
        (transmit codec snow sink Message.binary (auth_frame response)
          (link snow server_side z.s')).1 in
      let attempt =
        connect-Arrived snow ch net env client server x auth z.replies p b rest (ok tt, z.k') up
          (z.result ∙ ap (λ o. (verdict o, z.k')) succ) in
      record {
        packets = z.packets;
        answers = z.replies;
        session = z.s';
        conn = z.k'.conn;
        noise = z.k'.noise;
        accepted =
            ap (λ r. proceed r (launch snow net server started))
              (accept-online codec snow ch sink env.sink client server x server_rest w up' up c);
        received = z.received;
        inbox = z.inbox;
        inbox_kept = refl;
        calls = z.calls;
        session' = record (Session.with_link snow server_side z.s' link') {
          scheduler = spent snow server_side (auth_frame response) normal z.s';
        };
        answered =
            step-single snow server_side now (auth_frame response) normal z.s' link' idle
              (with_result _ true z.server_done);
        answers_sent = z.answered;
        linked = record {
          t = z.client_end;
          r = z.server_end;
          client = record { noise = z.client_noise; fresh = refl; idle = new-IsIdle };
          server = record {
            noise = z.server_noise;
            fresh = z.accumulator;
            idle = spent-IsIdle snow server_side (auth_frame response) normal z.s' idle;
            calm = z.calm;
          };
          synced = z.agreed;
        };
        attempt = attempt;
        connected = attempt.attempt;
        states =
            z.states
            ∙ rw (succ)
                (one_by_one connecting handshaking authenticating waiting_for_auth b.client.states);
        sent = z.sent;
      }
