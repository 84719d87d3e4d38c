-- ===== src/Client/Secure.antt =====
-- The Noise handshake and the authentication of src/ws/client/connection_loop.rs.
use notifiapp_transport.Common.{
  ℕ, List, [], ◌∷◌, Bool, true, false, Option, none, some, Text, codes, Result, ok, err, map_err,
  if◌then◌else◌, ◌==◌,
}
use notifiapp_transport.Error.{
  TransportError, CryptoError, noise_handshake_failed, connection_failed, connection_closed,
  crypto_message,
}
use notifiapp_transport.Error
use notifiapp_transport.State.{ConnectionState, authenticating, waiting_for_auth}
use notifiapp_transport.State
use notifiapp_transport.Auth.{AuthHandler, AuthOutcome, success, failed, retry_with_new_payload}
use notifiapp_transport.Frame.{Frame, message, Postcard, encode_frame}
use notifiapp_transport.Crypto.{Snow, NoiseSession, read_message, write_message, is_finished}
use notifiapp_transport.Crypto
use notifiapp_transport.Wire.{Sink, Wire, Link, send, send_encrypted}
use notifiapp_transport.Ws.{WsMessage}
use notifiapp_transport.Client.State.{publish}
use notifiapp_transport.Client.Receive.{Incoming, recv_one_frame}
use notifiapp_transport.Client.Config.{WsClientConfig}
use notifiapp_transport.Client.Handshake.{Conn}

pub record Securing (snow : Snow) : Type 0 where
  pub noise : NoiseSession snow
  pub conn : Conn

-- A step of a handshake, with the early return of `?`.
abbrev pub Act : Snow → Type 0 → Type 0
Act snow A = Securing snow → Result A TransportError × Securing snow

abbrev pub proceed :
    {snow : Snow} {A B : Type 0}
    → Result A TransportError × Securing snow
    → (A → Act snow B)
    → Result B TransportError × Securing snow
proceed (ok a, s) f = f a s
proceed (err e, s) f = (err e, s)

infixl 5 ◌>>=◌ ◌>>◌
abbrev pub ◌>>=◌ : {snow : Snow} {A B : Type 0} → Act snow A → (A → Act snow B) → Act snow B
◌>>=◌ m f = λ s. proceed (m s) f

abbrev pub ◌>>◌ : {snow : Snow} {B : Type 0} → Act snow (Unit {0}) → Act snow B → Act snow B
m >> k = m >>= λ _. k

module _ (codec : Postcard) (snow : Snow) (sink : Sink) (config : WsClientConfig) where
  abbrev fail : {A : Type 0} → TransportError → Act snow A
  fail e = λ s. (err e, s)

  -- The calls on the session, with the buffer of 65535 bytes.
  on_noise :
      Conn
      → Result (List ℕ) CryptoError × NoiseSession snow
      → Result (List ℕ) TransportError × Securing snow
  on_noise k (r, n) =
      (map_err (λ e. noise_handshake_failed (crypto_message e)) r, record { noise = n; conn = k })

  unfoldable pub noise_write : Act snow (List ℕ)
  unfolding on_noise
  noise_write s = on_noise s.conn (write_message snow [] 65535 s.noise)

  unfoldable pub noise_read : List ℕ → Act snow (List ℕ)
  unfolding on_noise
  noise_read packet s = on_noise s.conn (read_message snow packet 65535 s.noise)

  on_wire :
      Securing snow
      → Option Text × Wire WsMessage
      → Result (Unit {0}) TransportError × Securing snow
  on_wire s (none, w) = (ok tt, record s { conn = record s.conn { wire = w } })
  on_wire s (some e, w) =
      (err (connection_failed e), record s { conn = record s.conn { wire = w } })

  unfoldable pub send_binary : List ℕ → Act snow (Unit {0})
  unfolding on_wire
  send_binary bytes s = on_wire s (send sink (WsMessage.binary bytes) s.conn.wire)

  take_binary : Incoming → Act snow (List ℕ)
  take_binary [] s = (err connection_closed, s)
  take_binary (ok (WsMessage.binary b) ∷ rest) s =
      (ok b, record s { conn = record s.conn { incoming = rest } })
  take_binary (ok (WsMessage.text t) ∷ rest) s =
      (err connection_closed, record s { conn = record s.conn { incoming = rest } })
  take_binary (err e ∷ rest) s =
      (err connection_closed, record s { conn = record s.conn { incoming = rest } })

  unfoldable pub next_binary : Act snow (List ℕ)
  unfolding take_binary
  next_binary s = take_binary s.conn.incoming s

  unfoldable pub publish_state : ConnectionState → Act snow (Unit {0})
  publish_state state s =
      (ok tt, record s { conn = record s.conn { client = publish state s.conn.client } })

  unfoldable pub require_finished : Act snow (Unit {0})
  require_finished s =
      if is_finished snow s.noise
      then (ok tt, s)
      else (err (noise_handshake_failed (codes "Handshake not finished")), s)

  -- The three messages of the pattern XX.
  unfoldable pub exchange : Act snow (Unit {0})
  exchange = do
    e ← noise_write
    send_binary e
    reply ← next_binary
    payload ← noise_read reply
    last ← noise_write
    send_binary last
    require_finished

  exchanged :
      Result (Unit {0}) TransportError × Securing snow
      → Result (NoiseSession snow) TransportError × Conn
  exchanged (ok u, s) = (ok s.noise, s.conn)
  exchanged (err e, s) = (err e, s.conn)

  exchange_with :
      Conn
      → Result (NoiseSession snow) CryptoError
      → Result (NoiseSession snow) TransportError × Conn
  unfolding exchanged
  exchange_with k (err e) = (err (noise_handshake_failed (crypto_message e)), k)
  exchange_with k (ok n) = exchanged (exchange (record { noise = n; conn = k }))

  unfoldable pub handle_noise_handshake : Conn → Result (NoiseSession snow) TransportError × Conn
  unfolding exchange_with
  handle_noise_handshake k =
      exchange_with (record k { client = publish authenticating k.client })
        (Crypto.client snow config.noise_server_key)

  unfoldable pub encode_auth : List ℕ → Act snow (List ℕ)
  encode_auth bytes s = (encode_frame codec (record { id = 1; kind = message; payload = bytes }), s)

  sent :
      Securing snow → Bool × Link snow WsMessage → Result (Unit {0}) TransportError × Securing snow
  sent s (true, l) = (ok tt, record { noise = l.noise; conn = record s.conn { wire = l.wire } })
  sent s (false, l) =
      (err connection_closed, record { noise = l.noise; conn = record s.conn { wire = l.wire } })

  unfoldable pub send_auth : List ℕ → Act snow (Unit {0})
  unfolding sent
  send_auth encoded s = sent s (
      send_encrypted codec snow sink WsMessage.binary encoded
        (record { noise = s.noise; wire = s.conn.wire }))

  answered : Result Frame TransportError → Result (List ℕ) TransportError
  answered (ok f) = if f.id == 1 then ok f.payload else err connection_closed
  answered (err e) = err connection_closed

  -- The answer within the time limit, if the flag says so.
  unfoldable pub await_auth : Bool → Act snow (List ℕ)
  unfolding answered
  await_auth false s = (err connection_closed, s)
  await_auth true s =
      let r = recv_one_frame codec snow config.max_payload_bytes s.noise s.conn.incoming in
      (answered r.result, record { noise = r.noise; conn = record s.conn { incoming = r.left } })

  unfoldable pub judge : AuthOutcome → Act snow (Unit {0})
  judge success = λ s. (ok tt, s)
  judge AuthOutcome.unauthorized = publish_state State.unauthorized >> fail Error.unauthorized
  judge failed = fail connection_closed
  judge (retry_with_new_payload bytes) = fail connection_closed

  authenticate : AuthHandler → Bool → Option (List ℕ) → Act snow (Unit {0})
  authenticate auth in_time none = λ s. (ok tt, s)
  authenticate auth in_time (some bytes) = do
    publish_state waiting_for_auth
    encoded ← encode_auth bytes
    send_auth encoded
    response ← await_auth in_time
    judge (auth.process_auth_response response)

  unfoldable pub handle_auth : AuthHandler → Bool → Act snow (Unit {0})
  unfolding authenticate
  handle_auth auth in_time = authenticate auth in_time auth.auth_payload
