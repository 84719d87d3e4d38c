-- ===== src/Tests/Greetings.antt =====
-- The version handshake of both ends on concrete configurations.
use notifiapp_transport.Common.{
  ◌≡◌, refl, [], ◌∷◌, ◌++◌, none, some, ok, err, Text, codes, trim, trim_start, strip_prefix, false,
  contains,
}
use notifiapp_transport.Error
use notifiapp_transport.State
use notifiapp_transport.Tests.{snow, sink}
use notifiapp_transport.Wire.{Wire}
use notifiapp_transport.Ws.{Message}
use notifiapp_transport.Client.State.{new}
use notifiapp_transport.Client.Config.{WsClientConfig}
use notifiapp_transport.Client.Handshake.{Conn, hello, handle_version_handshake}
use notifiapp_transport.Server.Config.{WsServerConfig}
use notifiapp_transport.Server.Accept.{version_handshake, same_text}
use notifiapp_transport.Server.Agreement.{
  IsReadable, heard, told, replied, version_handshake-accepted, version_handshake-rejected,
}

abbrev pub client : WsClientConfig
client = record {
  protocol_name = codes "chat";
  protocol_version = codes "1.0";
  heartbeat_interval = 30;
  heartbeat_timeout = 10;
  request_timeout = 30;
  auth_timeout = 15;
  max_payload_bytes = 1000;
  noise_server_key = none;
  backoff = λ attempt. none;
  buffer_size = 100;
}

abbrev pub same : WsServerConfig
same = record {
  protocol_name = codes "chat";
  protocol_version = codes "1.0";
  noise_private_key = [];
  max_payload_bytes = 1000;
  heartbeat_interval = 30;
  heartbeat_timeout = 10;
  buffer_size = 100;
}

abbrev newer : WsServerConfig
newer = record {
  protocol_name = codes "chat";
  protocol_version = codes "2.0";
  noise_private_key = [];
  max_payload_bytes = 1000;
  heartbeat_interval = 30;
  heartbeat_timeout = 10;
  buffer_size = 100;
}

abbrev pub k : Conn
k = record { client = new; incoming = []; wire = record { sends = 0; sent = [] } }

abbrev pub w : Wire Message
w = record { sends = 0; sent = [] }

same-IsReadable : IsReadable snow sink sink client same
unfolding strip_prefix trim trim_start
same-IsReadable = record { names = refl; once = refl; trimmed = refl }

newer-IsReadable : IsReadable snow sink sink client newer
unfolding strip_prefix trim trim_start
newer-IsReadable = record { names = refl; once = refl; trimmed = refl }

version_handshake-accepted_example :
    (reply : Text) × (version_handshake snow sink same (heard (hello sink client) [] w)
      ≡ (ok tt, replied reply [] w))
    × ((handle_version_handshake sink client [] (told reply k)).0 ≡ some (ok tt, []))
version_handshake-accepted_example =
    version_handshake-accepted snow sink sink client same [] w [] k (λ n. refl) (λ n. refl)
      same-IsReadable refl

versions_differ : same_text client.protocol_version newer.protocol_version ≡ false
unfolding same_text
versions_differ = refl

not_accepted : contains (codes "PROTOCOL_ACCEPTED") newer.protocol_version ≡ false
unfolding contains
not_accepted = refl

version_handshake-rejected_example :
    (reply : Text) × (version_handshake snow sink newer (heard (hello sink client) [] w) ≡ (
      err (Error.version_mismatch client.protocol_version newer.protocol_version),
      replied reply [] w,
    ))
    × (let r = handle_version_handshake sink client [] (told reply k) in
        (r.0 ≡ none)
        × (r.1.client.pending ≡ [])
        × (r.1.client.states
            ≡ (k.client.states ++ (State.handshaking ∷ []))
              ++ (State.version_mismatch client.protocol_version (trim newer.protocol_version)
                  ∷ [])))
version_handshake-rejected_example =
    version_handshake-rejected snow sink sink client newer [] w k (λ n. refl) (λ n. refl)
      newer-IsReadable versions_differ not_accepted
