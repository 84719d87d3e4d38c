-- ===== src/Server/Accept.antt =====
-- The version and the Noise handshake of `accept_ws_session`, src/ws/server/mod.rs.
use notifiapp_transport.Common.{
  ℕ, List, [], ◌∷◌, ◌++◌, Bool, true, false, not, Option, none, some, Text, codes, Result, ok, err,
  map_err, if◌then◌else◌, ◌==◌, starts_with, trim_start_matches, trim, ◌&&◌,
}
use notifiapp_transport.Error.{
  TransportError, CryptoError, protocol_handshake_failed, version_mismatch, connection_failed,
  noise_handshake_failed, crypto_message,
}
use notifiapp_transport.Crypto
use notifiapp_transport.Crypto.{Snow, NoiseSession, read_message, write_message, is_finished}
use notifiapp_transport.Wire.{Sink, Wire, send}
use notifiapp_transport.Server.Config.{WsServerConfig}
use notifiapp_transport.Ws.{Message}

-- The socket: what its stream will still give, and the wire.
pub record Socket : Type 0 where
  pub incoming : List (Result Message Text)
  pub wire : Wire Message

-- A step of the handshake, with the early return of `?`.
abbrev pub Act : Type 0 → Type 0
Act A = Socket → Result A TransportError × Socket

abbrev pub proceed :
    {A B : Type 0}
    → Result A TransportError × Socket
    → (A → Act B)
    → Result B TransportError × Socket
proceed (ok a, s) f = f a s
proceed (err e, s) f = (err e, s)

infixl 5 ◌>>=◌
abbrev pub ◌>>=◌ : {A B : Type 0} → Act A → (A → Act B) → Act B
◌>>=◌ m f = λ s. proceed (m s) f

abbrev pub pure : {A : Type 0} → A → Act A
pure a = λ s. (ok a, s)

-- `!=` on strings, negated.
unfoldable pub same_text : Text → Text → Bool
same_text [] [] = true
same_text (x ∷ xs) (y ∷ ys) = x == y && same_text xs ys
same_text _ _ = false

module _ (snow : Snow) (sink : Sink) (config : WsServerConfig) where
  abbrev sent : Socket → Option Text × Wire Message → Result (Unit {0}) TransportError × Socket
  sent s (none, w) = (ok tt, record s { wire = w })
  sent s (some e, w) = (err (connection_failed e), record s { wire = w })

  unfoldable pub send_message : Message → Act (Unit {0})
  send_message m s = sent s (send sink m s.wire)

  unfoldable pub expected_prefix : Text
  expected_prefix = config.protocol_name ++ codes " "

  -- The reply to a client that is refused; its send may fail.
  unfoldable pub reject : {A : Type 0} → TransportError → Act A
  reject e s = (
    err e,
    (send_message (Message.text (codes "PROTOCOL_REJECTED " ++ config.protocol_version)) s).1,
  )

  unfoldable pub judge_hello : Text → Act (Unit {0})
  judge_hello hello =
      let client_version = trim (trim_start_matches expected_prefix hello) in
      if not (starts_with expected_prefix hello)
      then reject protocol_handshake_failed
      else (if same_text client_version config.protocol_version
          then send_message (Message.text (codes "PROTOCOL_ACCEPTED"))
          else reject (version_mismatch client_version config.protocol_version))

  take_hello : List (Result Message Text) → Act (Unit {0})
  take_hello (ok (Message.text t) ∷ rest) s = judge_hello t (record s { incoming = rest })
  take_hello (_ ∷ rest) s = (err protocol_handshake_failed, record s { incoming = rest })
  take_hello [] s = (err protocol_handshake_failed, s)

  unfoldable pub version_handshake : Act (Unit {0})
  unfolding take_hello
  version_handshake s = take_hello s.incoming s

  -- A binary message, or the error that its absence is.
  take_binary : Text → List (Result Message Text) → Act (List ℕ)
  take_binary why (ok (Message.binary b) ∷ rest) s = (ok b, record s { incoming = rest })
  take_binary why (_ ∷ rest) s = (err (noise_handshake_failed why), record s { incoming = rest })
  take_binary why [] s = (err (noise_handshake_failed why), s)

  unfoldable pub next_binary : Text → Act (List ℕ)
  unfolding take_binary
  next_binary why s = take_binary why s.incoming s

  -- A call on the Noise session, with the error it gives here.
  abbrev lift : {A : Type 0} → Result A CryptoError → Act A
  lift r s = (map_err (λ e. noise_handshake_failed (crypto_message e)) r, s)

  unfoldable pub require_finished : NoiseSession snow → Act (NoiseSession snow)
  require_finished noise s =
      if is_finished snow noise
      then (ok noise, s)
      else (err (noise_handshake_failed (codes "handshake not complete")), s)

  unfoldable pub noise_handshake : Act (NoiseSession snow)
  noise_handshake = do
    n0 ← lift (Crypto.server snow config.noise_private_key)
    e ← next_binary (codes "step 1: no E")
    let (r1, n1) = read_message snow e 65535 n0
    x1 ← lift r1
    let (r2, n2) = write_message snow [] 65535 n1
    reply ← lift r2
    u ← send_message (Message.binary reply)
    last ← next_binary (codes "step 3: no S,SE")
    let (r3, n3) = read_message snow last 65535 n2
    x3 ← lift r3
    require_finished n3

  -- Up to the start of the session.
  unfoldable pub accept : Act (NoiseSession snow)
  accept = do u ← version_handshake; noise_handshake
