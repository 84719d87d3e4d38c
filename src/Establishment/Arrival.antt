-- ===== src/Establishment/Arrival.antt =====
-- An attempt of a client of src/ws/client/ to connect to a server of src/ws/server/, up to the
-- authentication.
use notifiapp_transport.Common.{ℕ, ◌≡◌, refl, List, [], ◌∷◌, ◌++◌, map, true, Result, ok, codes}
use notifiapp_transport.State.{connecting, handshaking, authenticating}
use notifiapp_transport.Auth.{AuthHandler}
use notifiapp_transport.Crypto.{Snow, NoiseSession}
use notifiapp_transport.Crypto.Pattern.{Handshake}
use notifiapp_transport.Crypto.Transport.{Channel, online}
use notifiapp_transport.Wire.{Wire}
use notifiapp_transport.Wire.Sending.{IsUp}
use notifiapp_transport.Ws.{Message, WsMessage}
use notifiapp_transport.Client.State.{publish}
use notifiapp_transport.Client.Receive.{Incoming, packet_message}
use notifiapp_transport.Client.Config.{WsClientConfig}
use notifiapp_transport.Client.Handshake.{Conn, hello, handle_version_handshake}
use notifiapp_transport.Client.Secure.{Securing, handle_noise_handshake, handle_auth}
use notifiapp_transport.Error.{TransportError}
use notifiapp_transport.Client.Loop
use notifiapp_transport.Client.Loop.{Loop}
use notifiapp_transport.Client.Connection.{Background, Pass, connect, tell, authenticated}
use notifiapp_transport.Client.Online.{handle_version_handshake-accepted, connect-authenticated}
use notifiapp_transport.Server.Config.{WsServerConfig}
use notifiapp_transport.Server.Launch.{setting}
use notifiapp_transport.Server.Online.{replies}
use notifiapp_transport.Server.NoiseAgreement.{with_sent, handle_noise_handshake-online}
use notifiapp_transport.Server.Session
use notifiapp_transport.Server.Session.{Session, running, run, start, link}
use notifiapp_transport.State.{online as online_state}
use notifiapp_transport.Common.{true, some}

module _ (snow : Snow) (ch : Channel snow) (net : Session.Setting snow) (env : Loop.Setting snow)
    (client : WsClientConfig) (server : WsServerConfig)
    (x : Handshake snow ch client.noise_server_key server.noise_private_key)
    (auth : AuthHandler) where
  open net use {codec, sink}

  -- The settings of both ends, with the limits of the configurations and one codec.
  abbrev pub server_env : Session.Setting snow
  server_env = setting snow net server

  abbrev pub client_env : Loop.Setting snow
  client_env = record env {
    codec = codec;
    max_payload_bytes = client.max_payload_bytes;
    heartbeat_interval = client.heartbeat_interval;
    heartbeat_timeout = client.heartbeat_timeout;
  }

  -- What the server sends to the client, as the client's stream gives it.
  abbrev pub stream : List (List ℕ) → Incoming → Incoming
  stream answers rest =
      ok (WsMessage.text (codes "PROTOCOL_ACCEPTED"))
        ∷ ok (WsMessage.binary x.reply)
        ∷ map (packet_message codec snow client.max_payload_bytes) answers
      ++ rest

  abbrev pub pass_of : List (List ℕ) → Incoming → Pass → Pass
  pass_of answers rest p = record p { connection = ok (stream answers rest); in_time = true }

  -- The session as accept_ws_session starts it.
  abbrev pub first_session : ℕ → Wire Message → Session snow
  first_session started w =
      start snow server_env started (online snow x.r)
        (replies codec snow ch sink env.sink client server x w)

  abbrev pub started_loop : ℕ → Conn → NoiseSession snow → Loop snow
  started_loop now conn noise =
      Loop.start snow client_env now (publish online_state conn.client) noise conn.wire

  -- The client's connection before the Noise handshake, and before the authentication.
  abbrev pub greeted : Background → Conn
  greeted b = record {
    client = publish handshaking (publish connecting b.client);
    incoming = [];
    wire = with_sent (WsMessage.text (hello env.sink client)) (record { sends = 0; sent = [] });
  }

  abbrev pub secured : Background → Conn
  secured b = record {
    client = publish authenticating (greeted b).client;
    incoming = [];
    wire =
        with_sent (WsMessage.binary x.last) (with_sent (WsMessage.binary x.first) (greeted b).wire);
  }

  abbrev arriving : Conn → List (List ℕ) → Incoming → Conn
  arriving k answers rest = record k {
    incoming = map (packet_message codec snow client.max_payload_bytes) answers ++ rest;
  }

  abbrev replied : Conn → List (List ℕ) → Incoming → Conn
  replied k answers rest = record k {
    incoming = ok (WsMessage.binary x.reply) ∷ (arriving k answers rest).incoming;
  }

  -- An attempt up to the outcome of its authentication: each handshake begins with what the one
  -- before it left of the connection, the first with a connection on which nothing was sent.
  pub record Arrived (answers : List (List ℕ)) (p : Pass) (b : Background) (rest : Incoming)
      (r : Result (Unit {0}) TransportError × Securing snow) : Type 0 where
    pub greeting :
        handle_version_handshake env.sink client p.signals (record {
          client = publish connecting b.client;
          incoming = stream answers rest;
          wire = record { sends = 0; sent = [] };
        })
        ≡ (some (ok tt, p.signals), replied (greeted b) answers rest)
    pub securing :
        handle_noise_handshake codec snow env.sink client (replied (greeted b) answers rest)
        ≡ (ok (online snow x.t), arriving (secured b) answers rest)
    pub login :
        handle_auth codec snow env.sink client auth true
          (record { noise = online snow x.t; conn = arriving (secured b) answers rest })
        ≡ r
    pub attempt :
        connect snow client_env client auth (pass_of answers rest p) b
        ≡ authenticated snow client_env client auth (pass_of answers rest p) (tell connecting b) r

  -- With the messages of the server, an attempt comes to the authentication.
  pub connect-Arrived :
      (answers : List (List ℕ)) (p : Pass) (b : Background) (rest : Incoming)
      (r : Result (Unit {0}) TransportError × Securing snow)
      → IsUp env.sink
      → handle_auth codec snow env.sink client auth true
          (record { noise = online snow x.t; conn = arriving (secured b) answers rest })
        ≡ r
      → Arrived answers p b rest r
  connect-Arrived answers p b rest r up e =
      let tail = (arriving (secured b) answers rest).incoming in
      let greeting =
        handle_version_handshake-accepted env.sink client p.signals (publish connecting b.client)
          (ok (WsMessage.binary x.reply) ∷ tail) up in
      let securing =
        handle_noise_handshake-online codec snow ch sink env.sink client server x tail
          (replied (greeted b) answers rest) up in
      record {
        greeting = greeting;
        securing = securing;
        login = e;
        attempt =
            connect-authenticated snow client_env client auth (pass_of answers rest p) b
              (stream answers rest) (replied (greeted b) answers rest)
              (arriving (secured b) answers rest) (online snow x.t) r refl greeting securing e;
      }
