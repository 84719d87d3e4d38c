-- ===== src/Server/Online.antt =====
-- The handshakes of accept_ws_session, src/ws/server/mod.rs, with a client that agrees.
use notifiapp_transport.Common.{◌≡◌, refl, sym, ap, ◌∙◌, List, ◌∷◌, true, Result, ok, Text, codes}
use notifiapp_transport.Utils.{validate_protocol_string}
use notifiapp_transport.Frame.{Postcard}
use notifiapp_transport.Crypto.{Snow}
use notifiapp_transport.Crypto.Pattern.{Handshake}
use notifiapp_transport.Crypto.Transport.{Channel, online}
use notifiapp_transport.Wire.{Sink, Wire}
use notifiapp_transport.Wire.Sending.{IsUp}
use notifiapp_transport.Ws.{Message}
use notifiapp_transport.Client.Config.{WsClientConfig}
use notifiapp_transport.Client.Handshake.{hello}
use notifiapp_transport.Server.Config.{WsServerConfig}
use notifiapp_transport.Server.Accept.{judge_hello, version_handshake, accept}
use notifiapp_transport.Server.Agreement.{same_text_refl}
use notifiapp_transport.Server.Greeting.{judged, settled, judge_hello-same}
use notifiapp_transport.Server.NoiseAgreement.{with_sent, noise_handshake-online}

-- Configurations of one name and one version, which the constructors take.
pub record IsCompatible (client : WsClientConfig) (server : WsServerConfig) : Type 0 where
  pub names : client.protocol_name ≡ server.protocol_name
  pub versions : client.protocol_version ≡ server.protocol_version
  pub validated : validate_protocol_string client.protocol_version ≡ true

judged-same :
    (server : WsServerConfig)
    → judged server server.protocol_name server.protocol_version
      ≡ (ok tt, codes "PROTOCOL_ACCEPTED")
unfolding judged
judged-same server =
    rw (judged, same_text_refl server.protocol_name, same_text_refl server.protocol_version) refl

module _ (codec : Postcard) (snow : Snow) (ch : Channel snow) (sink client_sink : Sink)
    (client : WsClientConfig) (server : WsServerConfig)
    (x : Handshake snow ch client.noise_server_key server.noise_private_key) where
  -- What the client sends up to the end of the Noise handshake.
  abbrev pub greetings : List (Result Message Text) → List (Result Message Text)
  greetings rest =
      ok (Message.text (hello client_sink client))
      ∷ ok (Message.binary x.first)
      ∷ ok (Message.binary x.last)
      ∷ rest

  -- What the server sends.
  abbrev pub replies : Wire Message → Wire Message
  replies w =
      with_sent (Message.binary x.reply) (with_sent (Message.text (codes "PROTOCOL_ACCEPTED")) w)

  judge_hello-same_text :
      (rest : List (Result Message Text)) (w : Wire Message)
      → IsUp sink
      → IsCompatible client server
      → judge_hello snow sink server
          (hello client_sink client)
          (record { incoming = rest; wire = w })
        ≡ settled (ok tt, codes "PROTOCOL_ACCEPTED") rest w
  unfolding hello
  judge_hello-same_text rest w up c =
      rw (c.names, c.versions)
        (judge_hello-same snow sink server server.protocol_version rest w up
            (ap validate_protocol_string (sym c.versions) ∙ c.validated)
          ∙ ap (λ r. settled r rest w) (judged-same server))

  pub accept-online :
      (rest : List (Result Message Text)) (w : Wire Message)
      → IsUp sink
      → IsUp client_sink
      → IsCompatible client server
      → accept snow sink server (record { incoming = greetings rest; wire = w })
        ≡ (ok (online snow x.r), record { incoming = rest; wire = replies w })
  unfolding accept version_handshake
  accept-online rest w up up' c =
      rw
        (judge_hello-same_text (ok (Message.binary x.first) ∷ ok (Message.binary x.last) ∷ rest) w
          up c)
        (noise_handshake-online codec snow ch sink client_sink client server x rest
          (with_sent (Message.text (codes "PROTOCOL_ACCEPTED")) w) up)
