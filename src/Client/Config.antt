-- ===== src/Client/Config.antt =====
-- src/ws/client/config.rs: the configuration of a client. Durations are numbers of nanoseconds.
use notifiapp_transport.Common.{ℕ, ◌*◌, List, Option, none, some, Text, if◌then◌else◌, ◌&&◌}
use notifiapp_transport.Utils.{validate_protocol_string}
use notifiapp_transport.Backoff.{BackoffStrategy, Float, exponential_delay, from_secs}

pub record WsClientConfig : Type 0 where
  pub protocol_name : Text
  pub protocol_version : Text
  pub heartbeat_interval : ℕ
  pub heartbeat_timeout : ℕ
  pub request_timeout : ℕ
  pub auth_timeout : ℕ
  pub max_payload_bytes : ℕ
  pub noise_server_key : Option (List ℕ)
  pub backoff : BackoffStrategy
  pub buffer_size : ℕ

unfoldable pub default_request_timeout : ℕ
default_request_timeout = from_secs 30

unfoldable pub default_auth_timeout : ℕ
default_auth_timeout = from_secs 15

unfoldable pub default_heartbeat_interval : ℕ
default_heartbeat_interval = from_secs 30

unfoldable pub default_heartbeat_timeout : ℕ
default_heartbeat_timeout = from_secs 10

unfoldable pub default_max_payload : ℕ
default_max_payload = 4 * 1024 * 1024

unfoldable pub default_buffer_size : ℕ
default_buffer_size = 100

-- `none` is the panic of `validate_protocol_string`. The multiplier 2.0 is an argument.
unfoldable pub new : (fl : Float) → fl.F64 → Text → Text → Option WsClientConfig
unfolding default_request_timeout default_auth_timeout default_heartbeat_interval
    default_heartbeat_timeout default_max_payload default_buffer_size
new fl two protocol_name protocol_version =
    if validate_protocol_string protocol_name && validate_protocol_string protocol_version
    then some (record {
      protocol_name = protocol_name;
      protocol_version = protocol_version;
      heartbeat_interval = default_heartbeat_interval;
      heartbeat_timeout = default_heartbeat_timeout;
      request_timeout = default_request_timeout;
      auth_timeout = default_auth_timeout;
      max_payload_bytes = default_max_payload;
      noise_server_key = none;
      backoff =
          exponential_delay fl
            (record { initial_delay = from_secs 2; multiplier = two; max_delay = from_secs 30 });
      buffer_size = default_buffer_size;
    })
    else none

-- The setters, one field each.
unfoldable pub with_heartbeat_interval : ℕ → WsClientConfig → WsClientConfig
with_heartbeat_interval interval self = record self { heartbeat_interval = interval }

unfoldable pub with_heartbeat_timeout : ℕ → WsClientConfig → WsClientConfig
with_heartbeat_timeout timeout self = record self { heartbeat_timeout = timeout }

unfoldable pub with_request_timeout : ℕ → WsClientConfig → WsClientConfig
with_request_timeout timeout self = record self { request_timeout = timeout }

unfoldable pub with_auth_timeout : ℕ → WsClientConfig → WsClientConfig
with_auth_timeout timeout self = record self { auth_timeout = timeout }

unfoldable pub with_max_payload_bytes : ℕ → WsClientConfig → WsClientConfig
with_max_payload_bytes max self = record self { max_payload_bytes = max }

unfoldable pub with_noise_server_key : List ℕ → WsClientConfig → WsClientConfig
with_noise_server_key key self = record self { noise_server_key = some key }

unfoldable pub with_backoff : BackoffStrategy → WsClientConfig → WsClientConfig
with_backoff backoff self = record self { backoff = backoff }

unfoldable pub with_buffer_size : ℕ → WsClientConfig → WsClientConfig
with_buffer_size buffer_size self = record self { buffer_size = buffer_size }
