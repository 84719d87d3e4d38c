-- ===== src/Client/Connection.antt =====
-- `connection_loop` of src/ws/client/connection_loop.rs, one pass of its outer `loop` at a time.
-- What the network, the timers, the channel of commands and the application do in a pass is given.
use notifiapp_transport.Common.{
  ℕ, ◌+◌, ◌%◌, ◌^◌, List, [], ◌∷◌, Bool, true, false, not, Option, none, some, Text, Result, ok,
  err, ltb, if◌then◌else◌,
}
use notifiapp_transport.Error.{TransportError}
use notifiapp_transport.Error
use notifiapp_transport.State.{
  ConnectionState, disconnected, connecting, reconnecting, online, error,
}
use notifiapp_transport.State
use notifiapp_transport.Auth.{AuthHandler}
use notifiapp_transport.Crypto.{Snow, NoiseSession}
use notifiapp_transport.Wire.{Wire}
use notifiapp_transport.Ws.{WsMessage}
use notifiapp_transport.Client.State.{
  Client, ClientCmd, endpoint_changed, reconnect, publish, drop_pending,
}
use notifiapp_transport.Client.Receive.{Incoming}
use notifiapp_transport.Client.Config.{WsClientConfig}
use notifiapp_transport.Client.Handshake.{
  Conn, Signal, cancelled, cmd, Waited, woken, stopped, waiting, wait_for, wakes_url, wakes_offline,
  wakes_refused, handle_version_handshake,
}
use notifiapp_transport.Client.Secure.{Securing, handle_noise_handshake, handle_auth}
use notifiapp_transport.Client.Loop
use notifiapp_transport.Client.Loop.{Setting, Loop, Flow, running, broken}

-- The variables of the loop.
pub record Background : Type 0 where
  pub client : Client
  pub reconnect_attempt : ℕ
  pub ever_connected : Bool

-- How a pass ends: by `return`, by a panic, with the next pass, or not yet.
pub data Outcome : Type 0 where
  returned panicked again pending : Background → Outcome

-- What happens in a pass.
pub record Pass : Type 0 where
  -- What ends the sleep before an attempt; `none` is its time.
  pub during_sleep : Option Signal
  -- The error of `connect`, or the items of the stream until the message loop.
  pub connection : Result Incoming Text
  -- What the waits are told, and whether the answer to the authentication comes in time.
  pub signals : List Signal
  pub in_time : Bool
  -- The message loop: when it starts, and its rounds.
  pub online_at : ℕ
  pub events : List (ℕ × Loop.Event)

abbrev pub with_client : Background → Client → Background
with_client b c = record b { client = c }

abbrev pub tell : ConnectionState → Background → Background
tell state b = record b { client = publish state b.client }

-- `reconnect_attempt += 1; continue;`, on a `u32` that wraps as in a release build.
abbrev pub retry : Background → Outcome
retry b = again (record b { reconnect_attempt = (b.reconnect_attempt + 1) % 2 ^ 32 })

abbrev pub reset : Background → Background
reset b = record b { reconnect_attempt = 0 }

-- A wait goes on with the next pass, or returns if the client was shut down.
abbrev pub after_wait : Waited → Background → Background → Outcome
after_wait (woken rest) b b' = again b'
after_wait (stopped rest) b b' = returned b
after_wait waiting b b' = pending b

-- No endpoint.
unfoldable pub offline : Pass → Background → Outcome
offline p b = let b' = tell disconnected b in after_wait (wait_for wakes_url p.signals) b' b'

is_mismatch : ConnectionState → Bool
is_mismatch (State.version_mismatch client server) = true
is_mismatch _ = false

-- A command that comes in the sleep starts the next pass at once.
unfoldable pub interrupted : ClientCmd → Background → Outcome
interrupted reconnect b = again (reset b)
interrupted endpoint_changed b = again (reset b)
interrupted _ b = again b

abbrev pub and_then : Outcome → (Background → Outcome) → Outcome
and_then (again b) k = k b
and_then (returned b) k = returned b
and_then (panicked b) k = panicked b
and_then (pending b) k = pending b

module _ (snow : Snow) (env : Setting snow) (config : WsClientConfig) (auth : AuthHandler) where
  -- Behind the message loop.
  unfoldable pub after_online : Pass → Flow (Loop snow) → Background → Outcome
  after_online p (running l) b = pending (with_client b l.client)
  after_online p (broken l) b =
      let b' = with_client b (drop_pending (publish disconnected l.client)) in
      if not b'.client.auto_reconnect
      then after_wait (wait_for wakes_offline p.signals) b' b'
      else again (record b' { reconnect_attempt = 1 })

  unfoldable pub go_online : Pass → Background → NoiseSession snow → Wire WsMessage → Outcome
  go_online p b noise wire =
      let b' = tell online (record b { reconnect_attempt = 0; ever_connected = true }) in
      after_online p
        (Loop.run snow env p.events (Loop.start snow env p.online_at b'.client noise wire)) b'

  -- The outcome of the authentication. `Unauthorized` is final until the client is woken.
  unfoldable pub refuse : Pass → TransportError → Background → Outcome
  refuse p Error.unauthorized b =
      let b' = with_client b (drop_pending (publish State.unauthorized b.client)) in
      after_wait (wait_for wakes_refused p.signals) b' (reset b')
  refuse p e b = retry (tell (error (Error.message e)) b)

  unfoldable pub authenticated :
      Pass → Background → Result (Unit {0}) TransportError × Securing snow → Outcome
  authenticated p b (ok u, s) = go_online p (with_client b s.conn.client) s.noise s.conn.wire
  authenticated p b (err e, s) = refuse p e (with_client b s.conn.client)

  secured : Pass → Background → Result (NoiseSession snow) TransportError × Conn → Outcome
  unfolding authenticated
  secured p b (ok noise, k) = authenticated p b (
      handle_auth env.codec snow env.sink config auth p.in_time
        (record { noise = noise; conn = k }))
  secured p b (err e, k) = retry (with_client b k.client)

  greeted :
      Pass
      → Background
      → Option (Result (Unit {0}) (Option ConnectionState) × List Signal) × Conn
      → Outcome
  unfolding secured is_mismatch
  greeted p b (none, k) = pending (with_client b k.client)
  greeted p b (some (ok u, signals), k) =
      secured (record p { signals = signals }) b
        (handle_noise_handshake env.codec snow env.sink config k)
  greeted p b (some (err none, signals), k) = retry (with_client b k.client)
  greeted p b (some (err (some state), signals), k) =
      let b' = with_client b (publish state k.client) in
      if is_mismatch state
      then (let b'' = with_client b' (drop_pending b'.client) in
          after_wait (wait_for wakes_refused signals) b'' (reset b''))
      else retry b'

  opened : Pass → Background → Result Incoming Text → Outcome
  unfolding greeted
  opened p b (err e) = retry (tell (error e) b)
  opened p b (ok incoming) = greeted p b (
      handle_version_handshake env.sink config p.signals
        (record { client = b.client; incoming = incoming; wire = record { sends = 0; sent = [] } }))

  unfoldable pub connect : Pass → Background → Outcome
  unfolding opened
  connect p b = opened p (tell connecting b) p.connection

  slept : Pass → Background → Option Signal → Outcome
  slept p b none = connect p b
  slept p b (some cancelled) = returned b
  slept p b (some (cmd c)) = interrupted c b

  delayed : Pass → Background → Option ℕ → Outcome
  unfolding slept
  delayed p b none = panicked b
  delayed p b (some delay) =
      let b' = if b.ever_connected then tell (reconnecting b.reconnect_attempt delay) b else b in
      let slow = slept p b' p.during_sleep in if ltb 0 delay then slow else connect p b

  at_url : Pass → Background → Option Text → Outcome
  unfolding delayed
  at_url p b none = offline p b
  at_url p b (some url) = delayed p b (config.backoff b.reconnect_attempt)

  unfoldable pub pass : Pass → Background → Outcome
  unfolding at_url
  pass p b = if b.client.cancelled then returned b else at_url p b b.client.url

  unfoldable pub passes : List Pass → Background → Outcome
  passes [] b = again b
  passes (p ∷ ps) b = and_then (pass p b) (λ b'. passes ps b')
