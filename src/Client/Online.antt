-- ===== src/Client/Online.antt =====
-- The steps of `connection_loop`, src/ws/client/connection_loop.rs, between connecting and Online.
use notifiapp_transport.Common.{◌≡◌, refl, List, [], ◌∷◌, some, Result, ok, codes, contains}
use notifiapp_transport.Error.{TransportError}
use notifiapp_transport.State.{connecting, handshaking}
use notifiapp_transport.Auth.{AuthHandler}
use notifiapp_transport.Crypto.{Snow, NoiseSession}
use notifiapp_transport.Wire.{Sink, send}
use notifiapp_transport.Wire.Sending.{IsUp}
use notifiapp_transport.Ws.{WsMessage}
use notifiapp_transport.Client.State.{Client, publish}
use notifiapp_transport.Client.Receive.{Incoming}
use notifiapp_transport.Client.Config.{WsClientConfig}
use notifiapp_transport.Client.Handshake.{Conn, Signal, hello, handle_version_handshake}
use notifiapp_transport.Client.Secure.{Securing, handle_noise_handshake, handle_auth}
use notifiapp_transport.Client.Loop.{Setting}
use notifiapp_transport.Client.Connection.{Background, Pass, connect, tell, authenticated}
use notifiapp_transport.Server.NoiseAgreement.{with_sent}

-- A new connection, with what its stream will give.
abbrev pub opened : Client → Incoming → Conn
opened c incoming = record {
  client = c;
  incoming = incoming;
  wire = record { sends = 0; sent = [] };
}

pub handle_version_handshake-accepted :
    (sink : Sink) (config : WsClientConfig) (signals : List Signal) (c : Client) (rest : Incoming)
    → IsUp sink
    → handle_version_handshake sink config signals
        (opened c (ok (WsMessage.text (codes "PROTOCOL_ACCEPTED")) ∷ rest))
      ≡ (
        some (ok tt, signals),
        record {
          client = publish handshaking c;
          incoming = rest;
          wire = with_sent (WsMessage.text (hello sink config)) (record { sends = 0; sent = [] });
        },
      )
unfolding handle_version_handshake send contains
handle_version_handshake-accepted sink config signals c rest up =
    rw (handle_version_handshake, send, up 0) refl

module _ (snow : Snow) (env : Setting snow) (config : WsClientConfig) (auth : AuthHandler) where
  -- An attempt that comes to the authentication goes on as its outcome says.
  pub connect-authenticated :
      (p : Pass) (b : Background) (incoming : Incoming) (k k' : Conn) (noise : NoiseSession snow)
      (r : Result (Unit {0}) TransportError × Securing snow)
      → p.connection ≡ ok incoming
      → handle_version_handshake env.sink config p.signals
          (opened (publish connecting b.client) incoming)
        ≡ (some (ok tt, p.signals), k)
      → handle_noise_handshake env.codec snow env.sink config k ≡ (ok noise, k')
      → handle_auth env.codec snow env.sink config auth p.in_time
          (record { noise = noise; conn = k' })
        ≡ r
      → connect snow env config auth p b
        ≡ authenticated snow env config auth p (tell connecting b) r
  unfolding connect
  connect-authenticated p b incoming k k' noise r e1 e2 e3 e4 = rw (connect, e1, e2, e3, e4) refl
