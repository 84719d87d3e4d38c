-- ===== src/Server/Config.antt =====
-- src/ws/server/config.rs: the configuration of a server. Durations are numbers of nanoseconds.
use notifiapp_transport.Common.{ℕ, ◌*◌, List, [], Option, none, some, Text, if◌then◌else◌, ◌&&◌}
use notifiapp_transport.Utils.{validate_protocol_string}
use notifiapp_transport.Backoff.{from_secs}

pub record WsServerConfig : Type 0 where
  pub protocol_name : Text
  pub protocol_version : Text
  pub noise_private_key : List ℕ
  pub max_payload_bytes : ℕ
  pub heartbeat_interval : ℕ
  pub heartbeat_timeout : ℕ
  pub buffer_size : ℕ

-- `none` is the panic of `validate_protocol_string`.
unfoldable pub new : Text → Text → List ℕ → Option WsServerConfig
new protocol_name protocol_version noise_private_key =
    if validate_protocol_string protocol_name && validate_protocol_string protocol_version
    then some (record {
      protocol_name = protocol_name;
      protocol_version = protocol_version;
      noise_private_key = noise_private_key;
      max_payload_bytes = 4 * 1024 * 1024;
      heartbeat_interval = from_secs 30;
      heartbeat_timeout = from_secs 10;
      buffer_size = 100;
    })
    else none

unfoldable pub new_plain : Text → Text → Option WsServerConfig
new_plain protocol_name protocol_version =
    if validate_protocol_string protocol_name && validate_protocol_string protocol_version
    then some (record {
      protocol_name = protocol_name;
      protocol_version = protocol_version;
      noise_private_key = [];
      max_payload_bytes = 4 * 1024 * 1024;
      heartbeat_interval = from_secs 30;
      heartbeat_timeout = from_secs 10;
      buffer_size = 100;
    })
    else none
