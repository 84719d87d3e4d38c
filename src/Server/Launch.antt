-- ===== src/Server/Launch.antt =====
-- `accept_ws_session` of src/ws/server/mod.rs as a whole: the handshakes, the handle and the start
-- of the session. The channels' buffers and the task that runs the session are the runtime's.
use notifiapp_transport.Common.{ℕ, [], ok}
use notifiapp_transport.Crypto.{Snow, NoiseSession}
use notifiapp_transport.Server.Config.{WsServerConfig}
use notifiapp_transport.Server.Accept.{Act, accept, ◌>>=◌}
use notifiapp_transport.Server.Handle.{ServerSessionHandle}
use notifiapp_transport.Server.Session.{Setting, Session, start}

-- The first handle of a session.
abbrev pub new_handle : ServerSessionHandle
new_handle = record { in_use = 1; dropping = 0; tries = 0; commands = [] }

module _ (snow : Snow) (net : Setting snow) (config : WsServerConfig) where
  -- The limits of the configuration.
  abbrev pub setting : Setting snow
  setting = record net {
    max_bytes = config.max_payload_bytes;
    heartbeat_interval = config.heartbeat_interval;
    heartbeat_timeout = config.heartbeat_timeout;
  }

  abbrev pub launch : ℕ → NoiseSession snow → Act (ServerSessionHandle × Session snow)
  launch now noise s = (ok (new_handle, start snow setting now noise s.wire), s)

  unfoldable pub accept_ws_session : ℕ → Act (ServerSessionHandle × Session snow)
  accept_ws_session now = do noise ← accept snow net.sink config; launch now noise
