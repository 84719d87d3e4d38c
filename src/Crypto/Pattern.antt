-- ===== src/Crypto/Pattern.antt =====
-- The handshake of src/crypto.rs by the pattern XX, and what snow documents of it.
use notifiapp_transport.Common.{ℕ, List, [], true, false, Option, none, some, ok, ◌≡◌, refl}
use notifiapp_transport.Crypto.{
  Snow, NoiseSession, handshake, noise_pattern, read_message, write_message, client, server,
}
use notifiapp_transport.Crypto.Transport.{Channel, online}

module _ (snow : Snow) where
  abbrev pub shaking : snow.HandshakeState → NoiseSession snow
  shaking h = record { state = some (handshake h) }

  -- A pinned key configures the builder, and its absence leaves it as it is.
  abbrev pub Pinned : Option (List ℕ) → snow.Builder → snow.Builder → Type 0
  Pinned none b b' = b ≡ b'
  Pinned (some key) b b' = snow.remote_public_key b key ≡ ok b'

  -- The handshake of an initiator and a responder that pass their messages to one another: three
  -- messages with empty payloads, behind which both are finished.
  pub record Handshake (ch : Channel snow) (pinned : Option (List ℕ)) (static_key : List ℕ)
      : Type 0 where
    pub pattern : snow.Pattern
    pub keys : List ℕ × List ℕ
    pub b0 : snow.Builder
    pub b1 : snow.Builder
    pub b2 : snow.Builder
    pub i0 : snow.HandshakeState
    pub i1 : snow.HandshakeState
    pub i2 : snow.HandshakeState
    pub i3 : snow.HandshakeState
    pub r0 : snow.HandshakeState
    pub r1 : snow.HandshakeState
    pub r2 : snow.HandshakeState
    pub r3 : snow.HandshakeState
    pub first : List ℕ
    pub reply : List ℕ
    pub last : List ℕ
    pub t : snow.TransportState
    pub r : snow.TransportState
    pub parsed : snow.parse noise_pattern ≡ ok pattern
    pub generated : snow.generate_keypair (snow.builder pattern) ≡ ok keys
    pub client_key : snow.local_private_key (snow.builder pattern) keys.0 ≡ ok b0
    pub client_pin : Pinned pinned b0 b1
    pub initiator : snow.build_initiator b1 ≡ ok i0
    pub server_key : snow.local_private_key (snow.builder pattern) static_key ≡ ok b2
    pub responder : snow.build_responder b2 ≡ ok r0
    pub first_written : snow.handshake_write i0 [] 65535 ≡ ok (first, i1)
    pub first_read : snow.handshake_read r0 first 65535 ≡ ok ([], r1)
    pub reply_written : snow.handshake_write r1 [] 65535 ≡ ok (reply, r2)
    pub reply_read : snow.handshake_read i1 reply 65535 ≡ ok ([], i2)
    pub last_written : snow.handshake_write i2 [] 65535 ≡ ok (last, i3)
    pub last_read : snow.handshake_read r2 last 65535 ≡ ok ([], r3)
    pub open_i1 : snow.is_handshake_finished i1 ≡ false
    pub open_i2 : snow.is_handshake_finished i2 ≡ false
    pub open_r1 : snow.is_handshake_finished r1 ≡ false
    pub open_r2 : snow.is_handshake_finished r2 ≡ false
    pub done_i3 : snow.is_handshake_finished i3 ≡ true
    pub done_r3 : snow.is_handshake_finished r3 ≡ true
    pub client_transport : snow.into_transport_mode i3 ≡ ok t
    pub server_transport : snow.into_transport_mode r3 ≡ ok r
    pub synced : ch.Synced t r

  module _ (h h' : snow.HandshakeState) (input output : List ℕ) where
    pub write_message-open :
        snow.handshake_write h input 65535 ≡ ok (output, h')
        → snow.is_handshake_finished h' ≡ false
        → write_message snow input 65535 (shaking h) ≡ (ok output, shaking h')
    unfolding write_message
    write_message-open e f = rw (e, f) refl

    pub read_message-open :
        snow.handshake_read h input 65535 ≡ ok (output, h')
        → snow.is_handshake_finished h' ≡ false
        → read_message snow input 65535 (shaking h) ≡ (ok output, shaking h')
    unfolding read_message
    read_message-open e f = rw (e, f) refl

    pub write_message-done :
        (t : snow.TransportState)
        → snow.handshake_write h input 65535 ≡ ok (output, h')
        → snow.is_handshake_finished h' ≡ true
        → snow.into_transport_mode h' ≡ ok t
        → write_message snow input 65535 (shaking h) ≡ (ok output, online snow t)
    unfolding write_message
    write_message-done t e f g = rw (e, f, g) refl

    pub read_message-done :
        (t : snow.TransportState)
        → snow.handshake_read h input 65535 ≡ ok (output, h')
        → snow.is_handshake_finished h' ≡ true
        → snow.into_transport_mode h' ≡ ok t
        → read_message snow input 65535 (shaking h) ≡ (ok output, online snow t)
    unfolding read_message
    read_message-done t e f g = rw (e, f, g) refl

  module _ {ch : Channel snow} {static_key : List ℕ} where
    pub client-initiator :
        (pinned : Option (List ℕ)) (x : Handshake ch pinned static_key)
        → client snow pinned ≡ ok (shaking x.i0)
    unfolding client
    client-initiator none x =
        rw (x.parsed, x.generated, x.client_key, x.client_pin, x.initiator) refl
    client-initiator (some key) x =
        rw (x.parsed, x.generated, x.client_key, x.client_pin, x.initiator) refl

    pub server-responder :
        (pinned : Option (List ℕ)) (x : Handshake ch pinned static_key)
        → server snow static_key ≡ ok (shaking x.r0)
    unfolding server
    server-responder pinned x = rw (x.parsed, x.server_key, x.responder) refl
