-- ===== src/Tests/Constructed.antt =====
-- The version handshake between configurations from their constructors.
use notifiapp_transport.Common.{◌≡◌, refl, [], none, some, codes}
use notifiapp_transport.Utils.{is_valid, validate_protocol_string}
use notifiapp_transport.Tests.{snow, sink}
use notifiapp_transport.Tests.Delays.{naturals, naturals_powers}
use notifiapp_transport.Tests.Greetings.{w}
use notifiapp_transport.Backoff.{exponential_delay, from_secs}
use notifiapp_transport.Client.Config
use notifiapp_transport.Client.Config.{WsClientConfig}
use notifiapp_transport.Client.Handshake.{hello}
use notifiapp_transport.Server.Config.{WsServerConfig, new}
use notifiapp_transport.Server.Accept.{version_handshake}
use notifiapp_transport.Server.Agreement.{heard}
use notifiapp_transport.Server.Greeting.{judged, settled, version_handshake-judged}

abbrev client : WsClientConfig
client = record {
  protocol_name = codes "chat";
  protocol_version = codes "1.0-b_2";
  heartbeat_interval = from_secs 30;
  heartbeat_timeout = from_secs 10;
  request_timeout = from_secs 30;
  auth_timeout = from_secs 15;
  max_payload_bytes = 4194304;
  noise_server_key = none;
  backoff = exponential_delay naturals (record {
    initial_delay = from_secs 2;
    multiplier = naturals_powers.double 1;
    max_delay = from_secs 30;
  });
  buffer_size = 100;
}

abbrev server : WsServerConfig
server = record {
  protocol_name = codes "chat";
  protocol_version = codes "2.0";
  noise_private_key = [];
  max_payload_bytes = 4194304;
  heartbeat_interval = from_secs 30;
  heartbeat_timeout = from_secs 10;
  buffer_size = 100;
}

client-new :
    Config.new naturals (naturals_powers.double 1) (codes "chat") (codes "1.0-b_2") ≡ some client
unfolding Config.new Config.default_request_timeout Config.default_auth_timeout
    Config.default_heartbeat_interval Config.default_heartbeat_timeout Config.default_max_payload
    Config.default_buffer_size validate_protocol_string is_valid
client-new = refl

server-new : new (codes "chat") (codes "2.0") [] ≡ some server
unfolding new validate_protocol_string is_valid
server-new = refl

version_handshake-judged_example :
    version_handshake snow sink server (heard (hello sink client) [] w)
    ≡ settled (judged server (codes "chat") (codes "1.0-b_2")) [] w
version_handshake-judged_example =
    version_handshake-judged snow sink sink naturals (naturals_powers.double 1) (codes "chat")
      (codes "1.0-b_2") (codes "chat") (codes "2.0") [] client server [] w client-new server-new
      (λ n. refl)
