-- ===== src/Server/Task.antt =====
-- The task of a session, `run_server_session` of src/ws/server/session.rs as a whole, and what the
-- handles of src/ws/server/handle.rs read of it.
use notifiapp_transport.Common.{ℕ, List, Bool, true, false}
use notifiapp_transport.State.{ConnectionState, disconnected, online}
use notifiapp_transport.Crypto.{Snow}
use notifiapp_transport.Server.Session.{Session, Setting, Event, Flow, running, stopped, run}

-- The loop's variables, the channel of states that the handles share, and whether the socket was
-- closed.
pub record SessionTask (snow : Snow) : Type 0 where
  pub session : Session snow
  pub state : ConnectionState
  pub closed : Bool

module _ (snow : Snow) (env : Setting snow) where
  -- While the loop goes on, the state is the `Online` that `accept_ws_session` made the channel
  -- with; after it the state is published, then the socket closed.
  abbrev pub after_loop : Flow (Session snow) → SessionTask snow
  after_loop (running s) = record { session = s; state = online; closed = false }
  after_loop (stopped s) = record { session = s; state = disconnected; closed = true }

  -- The task once the events have come.
  unfoldable pub run_server_session : List (ℕ × Event) → Session snow → SessionTask snow
  run_server_session events s = after_loop (run snow env events s)

  is_online_state : ConnectionState → Bool
  is_online_state online = true
  is_online_state _ = false

  -- `ServerSessionHandle::is_alive`.
  unfoldable pub is_alive : SessionTask snow → Bool
  unfolding is_online_state
  is_alive t = is_online_state t.state
