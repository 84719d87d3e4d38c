-- ===== src/State.antt =====
-- src/state.rs: the states of a connection. A `Duration` is its number of nanoseconds.
use notifiapp_transport.Common.{ℕ, Bool, true, false, Text}

pub data ConnectionState : Type 0 where
  disconnected : ConnectionState
  connecting : ConnectionState
  -- The attempt and the delay before it.
  reconnecting : ℕ → ℕ → ConnectionState
  handshaking : ConnectionState
  authenticating : ConnectionState
  waiting_for_auth : ConnectionState
  online : ConnectionState
  unauthorized : ConnectionState
  -- The client's version and the server's.
  version_mismatch : Text → Text → ConnectionState
  error : Text → ConnectionState

unfoldable pub is_online : ConnectionState → Bool
is_online online = true
is_online _ = false

unfoldable pub is_connecting : ConnectionState → Bool
is_connecting connecting = true
is_connecting (reconnecting attempt delay) = true
is_connecting handshaking = true
is_connecting authenticating = true
is_connecting waiting_for_auth = true
is_connecting _ = false

unfoldable pub is_terminal : ConnectionState → Bool
is_terminal unauthorized = true
is_terminal (version_mismatch client server) = true
is_terminal _ = false
