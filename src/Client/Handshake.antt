-- ===== src/Client/Handshake.antt =====
-- The three handshakes of src/ws/client/connection_loop.rs: version, Noise and authentication.
use notifiapp_transport.Common.{
  List, [], ◌∷◌, ◌++◌, Bool, true, false, Option, none, some, Text, codes, Result, ok, err,
  if◌then◌else◌, contains, strip_prefix, trim, or_return,
}
use notifiapp_transport.State.{ConnectionState, handshaking, version_mismatch, error}
use notifiapp_transport.Wire.{Sink, Wire, send}
use notifiapp_transport.Ws.{WsMessage}
use notifiapp_transport.Client.State.{
  Client, ClientCmd, publish, drop_pending, endpoint_changed, reconnect, wake_up,
}
use notifiapp_transport.Client.Config.{WsClientConfig}
use notifiapp_transport.Client.Receive.{Incoming}

-- One connection: the client, what the stream will still give, and the wire.
pub record Conn : Type 0 where
  pub client : Client
  pub incoming : Incoming
  pub wire : Wire WsMessage

-- What a waiting loop is told: that the client was shut down, or a command.
pub data Signal : Type 0 where
  cancelled : Signal
  cmd : ClientCmd → Signal

-- How it ends; `waiting` means that nothing more has come yet.
pub data Waited : Type 0 where
  woken stopped : List Signal → Waited
  waiting : Waited

-- `loop { select! { cancelled => .., Some(cmd) = recv() => if matches!(cmd, ..) { break } } }`.
unfoldable pub wait_for : (ClientCmd → Bool) → List Signal → Waited
wait_for wakes [] = waiting
wait_for wakes (cancelled ∷ rest) = stopped rest
wait_for wakes (cmd c ∷ rest) = if wakes c then woken rest else wait_for wakes rest

-- The commands that end the waits.
unfoldable pub wakes_url : ClientCmd → Bool
wakes_url endpoint_changed = true
wakes_url _ = false

unfoldable pub wakes_offline : ClientCmd → Bool
wakes_offline endpoint_changed = true
wakes_offline reconnect = true
wakes_offline _ = false

unfoldable pub wakes_refused : ClientCmd → Bool
wakes_refused endpoint_changed = true
wakes_refused reconnect = true
wakes_refused wake_up = true
wakes_refused _ = false

abbrev publish_on : ConnectionState → Conn → Conn
publish_on state k = record k { client = publish state k.client }

module _ (sink : Sink) (config : WsClientConfig) where
  unfoldable pub hello : Text
  hello = config.protocol_name ++ (codes " " ++ config.protocol_version)

  -- The version that the server tells when it refuses.
  unfoldable pub server_version : Text → Text
  server_version reply =
      trim (or_return (strip_prefix (codes "PROTOCOL_REJECTED ") reply) (codes "unknown"))

  -- A refusal is published, the pending requests are dropped, and the client waits for a command.
  -- `none` in the result means that the wait is not over.
  unfoldable pub refused :
      Text
      → List Signal
      → Conn
      → Option (Result (Unit {0}) (Option ConnectionState) × List Signal) × Conn
  refused reply signals k =
      let state = version_mismatch config.protocol_version (server_version reply) in
      let k' = record k { client = drop_pending (publish state k.client) } in
      elim (wait_for wakes_offline signals) [
        | woken rest ↦ (some (err none, rest), k')
        | stopped rest ↦ (some (err none, rest), k')
        | waiting ↦ (none, k')
      ]

  abbrev fail :
      Text
      → List Signal
      → Conn
      → Option (Result (Unit {0}) (Option ConnectionState) × List Signal) × Conn
  fail why signals k = (some (err (some (error why)), signals), k)

  read_reply :
      Incoming
      → List Signal
      → Conn
      → Option (Result (Unit {0}) (Option ConnectionState) × List Signal) × Conn
  read_reply [] signals k = fail (codes "Connection closed during handshake") signals k
  read_reply (ok (WsMessage.text reply) ∷ rest) signals k =
      let k' = record k { incoming = rest } in
      if contains (codes "PROTOCOL_ACCEPTED") reply
      then (some (ok tt, signals), k')
      else (if contains (codes "PROTOCOL_REJECTED") reply
          then refused reply signals k'
          else fail (codes "Invalid handshake reply") signals k')
  read_reply (ok (WsMessage.binary b) ∷ rest) signals k =
      fail (codes "Invalid handshake reply") signals (record k { incoming = rest })
  read_reply (err e ∷ rest) signals k = fail e signals (record k { incoming = rest })

  greet :
      Option Text × Wire WsMessage
      → List Signal
      → Conn
      → Option (Result (Unit {0}) (Option ConnectionState) × List Signal) × Conn
  unfolding read_reply
  greet (some e, w) signals k = fail e signals (record k { wire = w })
  greet (none, w) signals k = read_reply k.incoming signals (record k { wire = w })

  unfoldable pub handle_version_handshake :
      List Signal → Conn → Option (Result (Unit {0}) (Option ConnectionState) × List Signal) × Conn
  unfolding greet
  handle_version_handshake signals k =
      greet (send sink (WsMessage.text hello) k.wire) signals (publish_on handshaking k)
