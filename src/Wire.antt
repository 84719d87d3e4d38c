-- ===== src/Wire.antt =====
-- The sending half of an encrypted connection, as src/ws/client/connection_loop.rs and
-- src/ws/server/session.rs use it: a frame is encoded, encrypted and sent chunk by chunk.
pub mod Inbound
pub mod Sending
pub mod Receiving
pub mod EndToEnd
use notifiapp_transport.Common.{
  ℕ, zero, suc, List, [], ◌∷◌, ◌++◌, Bool, true, false, Option, none, some, if◌then◌else◌, Text,
  Result, ok, err,
}
use notifiapp_transport.Error.{CryptoError}
use notifiapp_transport.Frame.{Frame, Postcard, encode_frame}
use notifiapp_transport.Crypto.{Snow, NoiseSession, encrypt_chunked}

-- The network seen by the sender: the error, if any, of its n-th call of `send`.
abbrev pub Sink : Type 0
Sink = ℕ → Option Text

-- The calls of `send` so far, and the messages that they put on the wire, oldest first.
pub record Wire (M : Type 0) : Type 0 where
  pub sends : ℕ
  pub sent : List M

module _ {M : Type 0} (sink : Sink) where
  unfoldable pub send : M → Wire M → Option Text × Wire M
  send m w = elim (sink w.sends) [
    | none ↦ (none, record { sends = suc w.sends; sent = w.sent ++ (m ∷ []) })
    | some e ↦ (some e, record w { sends = suc w.sends })
  ]

  -- An error ends the loop over the chunks.
  abbrev pub proceed : Option Text × Wire M → (Wire M → Bool × Wire M) → Bool × Wire M
  proceed (none, w) k = k w
  proceed (some e, w) k = (false, w)

  -- `for chunk in chunks { if ws.send(..).await.is_err() { .. break } }`: whether all were sent.
  unfoldable pub send_each : (List ℕ → M) → List (List ℕ) → Wire M → Bool × Wire M
  send_each binary [] w = (true, w)
  send_each binary (c ∷ cs) w = proceed (send (binary c) w) (λ w'. send_each binary cs w')

-- The two parts of a connection that sending changes.
pub record Link (snow : Snow) (M : Type 0) : Type 0 where
  pub noise : NoiseSession snow
  pub wire : Wire M

module _ (codec : Postcard) (snow : Snow) {M : Type 0} (sink : Sink) (binary : List ℕ → M) where
  -- The chunks of an encrypted frame go out, unless the encryption failed.
  send_packets :
      Result (List (List ℕ)) CryptoError × NoiseSession snow → Wire M → Bool × Link snow M
  send_packets (ok packets, noise) w =
      let (done, w') = send_each sink binary packets w in
      (done, record { noise = noise; wire = w' })
  send_packets (err e, noise) w = (false, record { noise = noise; wire = w })

  unfoldable pub send_encrypted : List ℕ → Link snow M → Bool × Link snow M
  unfolding send_packets
  send_encrypted encoded l = send_packets (encrypt_chunked snow encoded l.noise) l.wire

  -- One frame; the flag is false if a step failed.
  unfoldable pub transmit : Frame → Link snow M → Bool × Link snow M
  transmit frame l = elim (encode_frame codec frame) [
    | ok encoded ↦ send_encrypted encoded l
    | err e ↦ (false, l)
  ]

  -- An error ends the loop over the frames.
  abbrev pub transmitted :
      Bool × Link snow M → (Link snow M → Bool × Link snow M) → Bool × Link snow M
  transmitted (true, l) k = k l
  transmitted (false, l) k = (false, l)

  unfoldable pub transmit_all : List Frame → Link snow M → Bool × Link snow M
  transmit_all [] l = (true, l)
  transmit_all (f ∷ fs) l = transmitted (transmit f l) (λ l'. transmit_all fs l')
