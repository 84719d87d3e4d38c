-- ===== src/Server/NoiseAgreement.antt =====
-- The Noise handshake of both ends: `handle_noise_handshake` of src/ws/client/connection_loop.rs and
-- the second part of `accept_ws_session`, src/ws/server/mod.rs.
use notifiapp_transport.Common.{ℕ, suc, ◌≡◌, refl, List, [], ◌∷◌, ◌++◌, Option, Text, Result, ok}
use notifiapp_transport.State.{authenticating}
use notifiapp_transport.Frame.{Postcard}
use notifiapp_transport.Crypto
use notifiapp_transport.Crypto.{Snow, NoiseSession, is_finished}
use notifiapp_transport.Crypto.Transport.{Channel, online}
use notifiapp_transport.Crypto.Pattern.{
  shaking, Handshake, write_message-open, read_message-open, write_message-done, read_message-done,
  client-initiator, server-responder,
}
use notifiapp_transport.Wire.{Sink, Wire}
use notifiapp_transport.Wire.Sending.{IsUp, send-up}
use notifiapp_transport.Ws.{Message, WsMessage}
use notifiapp_transport.Client.State.{Client, publish}
use notifiapp_transport.Client.Receive.{Incoming}
use notifiapp_transport.Client.Config.{WsClientConfig}
use notifiapp_transport.Client.Handshake.{Conn}
use notifiapp_transport.Client.Secure
use notifiapp_transport.Client.Secure.{
  Securing, noise_write, noise_read, send_binary, next_binary, exchange, handle_noise_handshake,
}
use notifiapp_transport.Server.Config.{WsServerConfig}
use notifiapp_transport.Server.Accept
use notifiapp_transport.Server.Accept.{Socket, send_message, noise_handshake}

-- A wire on which these messages were put.
abbrev pub with_sent : {M : Type 0} → M → Wire M → Wire M
with_sent m w = record { sends = suc w.sends; sent = w.sent ++ (m ∷ []) }

module _ (codec : Postcard) (snow : Snow) (sink : Sink) (config : WsClientConfig) where
  noise_write-ok :
      (n n' : NoiseSession snow) (b : List ℕ) (k : Conn)
      → Crypto.write_message snow [] 65535 n ≡ (ok b, n')
      → noise_write codec snow sink config (record { noise = n; conn = k })
        ≡ (ok b, record { noise = n'; conn = k })
  unfolding noise_write
  noise_write-ok n n' b k e = rw e refl

  noise_read-ok :
      (n n' : NoiseSession snow) (b p : List ℕ) (k : Conn)
      → Crypto.read_message snow p 65535 n ≡ (ok b, n')
      → noise_read codec snow sink config p (record { noise = n; conn = k })
        ≡ (ok b, record { noise = n'; conn = k })
  unfolding noise_read
  noise_read-ok n n' b p k e = rw e refl

  send_binary-up :
      (b : List ℕ) (n : NoiseSession snow) (k : Conn)
      → IsUp sink
      → send_binary codec snow sink config b (record { noise = n; conn = k }) ≡ (
        ok tt,
        record { noise = n; conn = record k { wire = with_sent (WsMessage.binary b) k.wire } },
      )
  unfolding send_binary
  send_binary-up b n k up = rw (send-up sink (WsMessage.binary b) k.wire (up k.wire.sends)) refl

  -- The three messages on the client's side.
  exchange-online :
      {ch : Channel snow} {pinned : Option (List ℕ)} {static_key : List ℕ}
      (x : Handshake snow ch pinned static_key) (c : Client) (rest : Incoming) (w : Wire WsMessage)
      → IsUp sink
      → exchange codec snow sink config (record {
        noise = shaking snow x.i0;
        conn = record { client = c; incoming = ok (WsMessage.binary x.reply) ∷ rest; wire = w };
      })
        ≡ (
          ok tt,
          record {
            noise = online snow x.t;
            conn = record {
              client = c;
              incoming = rest;
              wire = with_sent (WsMessage.binary x.last) (with_sent (WsMessage.binary x.first) w);
            };
          },
        )
  unfolding exchange next_binary Secure.require_finished is_finished
  exchange-online x c rest w up =
      rw
        (
          noise_write-ok _ _ _ _
              (write_message-open snow x.i0 x.i1 [] x.first x.first_written x.open_i1),
          send_binary-up x.first _ _ up,
          noise_read-ok _ _ _ x.reply _
              (read_message-open snow x.i1 x.i2 x.reply [] x.reply_read x.open_i2),
          noise_write-ok _ _ _ _ (
              write_message-done snow x.i2 x.i3 [] x.last x.t x.last_written x.done_i3
                x.client_transport),
          send_binary-up x.last _ _ up,
        )
        refl

module _ (codec : Postcard) (snow : Snow) (ch : Channel snow) (sink client_sink : Sink)
    (client : WsClientConfig) (server : WsServerConfig)
    (x : Handshake snow ch client.noise_server_key server.noise_private_key) where
  -- What either end has at the start: the messages of the other, and more behind them.
  abbrev pub client_start : Incoming → Conn → Conn
  client_start rest k = record k { incoming = ok (WsMessage.binary x.reply) ∷ rest }

  abbrev pub server_start : List (Result Message Text) → Wire Message → Socket
  server_start rest w = record {
    incoming = ok (Message.binary x.first) ∷ ok (Message.binary x.last) ∷ rest;
    wire = w;
  }

  pub handle_noise_handshake-online :
      (rest : Incoming) (k : Conn)
      → IsUp client_sink
      → handle_noise_handshake codec snow client_sink client (client_start rest k) ≡ (
        ok (online snow x.t),
        record {
          client = publish authenticating k.client;
          incoming = rest;
          wire = with_sent (WsMessage.binary x.last) (with_sent (WsMessage.binary x.first) k.wire);
        },
      )
  unfolding handle_noise_handshake
  handle_noise_handshake-online rest k up =
      rw
        (
          client-initiator snow client.noise_server_key x,
          exchange-online codec snow client_sink client x (publish authenticating k.client) rest
              k.wire up,
        )
        refl

  send_message-up :
      (b : List ℕ) (s : Socket)
      → IsUp sink
      → send_message snow sink server (Message.binary b) s
        ≡ (ok tt, record s { wire = with_sent (Message.binary b) s.wire })
  unfolding send_message
  send_message-up b s up = rw (send-up sink (Message.binary b) s.wire (up s.wire.sends)) refl

  pub noise_handshake-online :
      (rest : List (Result Message Text)) (w : Wire Message)
      → IsUp sink
      → noise_handshake snow sink server (server_start rest w) ≡ (
        ok (online snow x.r),
        record { incoming = rest; wire = with_sent (Message.binary x.reply) w },
      )
  unfolding noise_handshake Accept.next_binary Accept.require_finished is_finished
  noise_handshake-online rest w up =
      rw
        (
          server-responder snow client.noise_server_key x,
          read_message-open snow x.r0 x.r1 x.first [] x.first_read x.open_r1,
          write_message-open snow x.r1 x.r2 [] x.reply x.reply_written x.open_r2,
          send_message-up x.reply _ up,
          read_message-done snow x.r2 x.r3 x.last [] x.r x.last_read x.done_r3 x.server_transport,
        )
        refl

  -- With a snow that completes the handshake of three messages, and while both sinks are up,
  -- client and server that get the messages of one another both end the Noise handshake online,
  -- the client with the state Authenticating published, each with just its own messages sent, and
  -- their transport states agree.
  pub noise_handshake-agreed :
      (rest : Incoming) (server_rest : List (Result Message Text)) (k : Conn) (w : Wire Message)
      → IsUp sink
      → IsUp client_sink
      → (handle_noise_handshake codec snow client_sink client (client_start rest k) ≡ (
        ok (online snow x.t),
        record {
          client = publish authenticating k.client;
          incoming = rest;
          wire = with_sent (WsMessage.binary x.last) (with_sent (WsMessage.binary x.first) k.wire);
        },
      ))
        × (noise_handshake snow sink server (server_start server_rest w) ≡ (
          ok (online snow x.r),
          record { incoming = server_rest; wire = with_sent (Message.binary x.reply) w },
        ))
        × ch.Synced x.t x.r
  noise_handshake-agreed rest server_rest k w up up' =
      (handle_noise_handshake-online rest k up', noise_handshake-online server_rest w up, x.synced)
