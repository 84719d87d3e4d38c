-- ===== src/Crypto.antt =====
-- src/crypto.rs: a Noise session, its handshake and its chunked transport.
-- The crate snow is a parameter. A buffer that the caller hands in is its length, and the call gives
-- the bytes that snow writes into it; the callers keep just those.
pub mod Chunks
pub mod Transport
pub mod Pattern
pub mod Keys
pub mod Session
use notifiapp_transport.Common.{
  ℕ, zero, suc, ◌+◌, ◌-◌, List, [], ◌∷◌, ◌++◌, Bool, true, false, Option, none, some, if◌then◌else◌,
  length, take, drop, Text, codes, Result, ok, err, map_err, ◌>>=◌ as ◌>>?◌,
}
use notifiapp_transport.Error.{
  CryptoError, pattern_parse, handshake_failed, encrypt_failed, decrypt_failed, invalid_state,
}

pub record Snow : Type 1 where
  pub Pattern : Type 0
  pub Builder : Type 0
  pub HandshakeState : Type 0
  pub TransportState : Type 0
  pub parse : Text → Result Pattern Text
  pub builder : Pattern → Builder
  -- The private and the public key.
  pub generate_keypair : Builder → Result (List ℕ × List ℕ) Text
  pub local_private_key : Builder → List ℕ → Result Builder Text
  pub remote_public_key : Builder → List ℕ → Result Builder Text
  pub build_initiator : Builder → Result HandshakeState Text
  pub build_responder : Builder → Result HandshakeState Text
  pub handshake_read : HandshakeState → List ℕ → ℕ → Result (List ℕ × HandshakeState) Text
  pub handshake_write : HandshakeState → List ℕ → ℕ → Result (List ℕ × HandshakeState) Text
  pub is_handshake_finished : HandshakeState → Bool
  pub into_transport_mode : HandshakeState → Result TransportState Text
  pub transport_read : TransportState → List ℕ → ℕ → Result (List ℕ × TransportState) Text
  pub transport_write : TransportState → List ℕ → ℕ → Result (List ℕ × TransportState) Text

unfoldable pub noise_pattern : Text
noise_pattern = codes "Noise_XX_25519_ChaChaPoly_BLAKE2b"

-- `MAX_CHUNK_PLAIN`.
abbrev pub max_chunk_plain : ℕ
max_chunk_plain = 65535 - 16

pub data NoiseState (snow : Snow) : Type 0 where
  handshake : snow.HandshakeState → NoiseState snow
  transport : snow.TransportState → NoiseState snow

pub record NoiseSession (snow : Snow) : Type 0 where
  pub state : Option (NoiseState snow)

-- A call on a session: its result, and the session that it leaves behind.
abbrev pub Call : Snow → Type 0 → Type 0
Call snow A = NoiseSession snow → Result A CryptoError × NoiseSession snow

abbrev pub continue :
    {snow : Snow} {A B : Type 0}
    → Result A CryptoError × NoiseSession snow
    → (A → Call snow B)
    → Result B CryptoError × NoiseSession snow
continue (ok a, s) f = f a s
continue (err e, s) f = (err e, s)

infixl 5 ◌>>=◌
abbrev pub ◌>>=◌ : {snow : Snow} {A B : Type 0} → Call snow A → (A → Call snow B) → Call snow B
◌>>=◌ m f = λ s. continue (m s) f

module _ (snow : Snow) where
  open snow use {
    parse, builder, generate_keypair, local_private_key, remote_public_key, build_initiator,
    build_responder, handshake_read, handshake_write, is_handshake_finished, into_transport_mode,
    transport_read, transport_write,
  }

  abbrev pub pure : {A : Type 0} → A → Call snow A
  pure a = λ s. (ok a, s)

  abbrev session : NoiseState snow → NoiseSession snow
  session n = record { state = some n }

  -- `Option<&[u8]>`: with no pinned key, the builder stays as it is.
  pin : Option (List ℕ) → snow.Builder → Result snow.Builder Text
  pin none b = ok b
  pin (some key) b = remote_public_key b key

  unfoldable pub client : Option (List ℕ) → Result (NoiseSession snow) CryptoError
  unfolding pin
  client server_static_key = map_err pattern_parse (parse noise_pattern) >>? λ pattern.
      map_err handshake_failed (generate_keypair (builder pattern)) >>? λ keypair.
      map_err handshake_failed (local_private_key (builder pattern) keypair.0) >>? λ b.
      map_err handshake_failed (pin server_static_key b) >>? λ b'.
      map_err handshake_failed (build_initiator b') >>? λ h. ok (session (handshake h))

  unfoldable pub server : List ℕ → Result (NoiseSession snow) CryptoError
  server static_key = map_err pattern_parse (parse noise_pattern) >>? λ pattern.
      map_err handshake_failed (local_private_key (builder pattern) static_key) >>? λ b.
      map_err handshake_failed (build_responder b) >>? λ h. ok (session (handshake h))

  -- `self.state.take()` leaves `None`, and each early return leaves it so.
  abbrev pub poisoned : NoiseSession snow
  poisoned = record { state = none }

  -- The end of a handshake step: a finished handshake turns into a transport.
  abbrev settle : List ℕ → snow.HandshakeState → Result (List ℕ) CryptoError × NoiseSession snow
  settle bytes h =
      if is_handshake_finished h
      then elim (into_transport_mode h) [
        | ok t ↦ (ok bytes, session (transport t))
        | err e ↦ (err (handshake_failed e), poisoned)
      ]
      else (ok bytes, session (handshake h))

  read_state :
      Option (NoiseState snow) → List ℕ → ℕ → Result (List ℕ) CryptoError × NoiseSession snow
  read_state none packet room = (err invalid_state, poisoned)
  read_state (some (handshake h)) packet room = elim (handshake_read h packet room) [
    | ok (bytes, h') ↦ settle bytes h'
    | err e ↦ (err (handshake_failed e), poisoned)
  ]
  read_state (some (transport t)) packet room = elim (transport_read t packet room) [
    | ok (bytes, t') ↦ (ok bytes, session (transport t'))
    | err e ↦ (err (decrypt_failed e), poisoned)
  ]

  write_state :
      Option (NoiseState snow) → List ℕ → ℕ → Result (List ℕ) CryptoError × NoiseSession snow
  write_state none packet room = (err invalid_state, poisoned)
  write_state (some (handshake h)) packet room = elim (handshake_write h packet room) [
    | ok (bytes, h') ↦ settle bytes h'
    | err e ↦ (err (handshake_failed e), poisoned)
  ]
  write_state (some (transport t)) packet room = elim (transport_write t packet room) [
    | ok (bytes, t') ↦ (ok bytes, session (transport t'))
    | err e ↦ (err (encrypt_failed e), poisoned)
  ]

  unfoldable pub read_message : List ℕ → ℕ → Call snow (List ℕ)
  unfolding read_state
  read_message packet room s = read_state s.state packet room

  unfoldable pub write_message : List ℕ → ℕ → Call snow (List ℕ)
  unfolding write_state
  write_message payload room s = write_state s.state payload room

  is_transport : Option (NoiseState snow) → Bool
  is_transport (some (transport t)) = true
  is_transport _ = false

  unfoldable pub is_finished : NoiseSession snow → Bool
  unfolding is_transport
  is_finished s = is_transport s.state

  -- The loops of `encrypt_chunked` and `decrypt_chunked`.
  unfoldable pub encrypt_each : List (List ℕ) → Call snow (List (List ℕ))
  encrypt_each [] = pure []
  encrypt_each (chunk ∷ rest) = do
    packet ← write_message chunk (length chunk + 16)
    packets ← encrypt_each rest
    pure (packet ∷ packets)

  unfoldable pub decrypt_each : List (List ℕ) → Call snow (List ℕ)
  decrypt_each [] = pure []
  decrypt_each (packet ∷ rest) = do
    bytes ← read_message packet (length packet)
    out ← decrypt_each rest
    pure (bytes ++ out)

-- `payload.chunks(n)` of the standard library: pieces of length `n`, and a shorter last one.
-- Each round takes an element at least, so `length payload` rounds are enough.
unfoldable pub chunks_within {ℓ} : {A : Type ℓ} → ℕ → ℕ → List A → List (List A)
chunks_within zero n xs = []
chunks_within (suc fuel) n [] = []
chunks_within (suc fuel) n (x ∷ xs) = take n (x ∷ xs) ∷ chunks_within fuel n (drop n (x ∷ xs))

unfoldable pub chunks {ℓ} : {A : Type ℓ} → ℕ → List A → List (List A)
chunks n xs = chunks_within (length xs) n xs

module _ (snow : Snow) where
  unfoldable pub encrypt_chunked : List ℕ → Call snow (List (List ℕ))
  encrypt_chunked payload = encrypt_each snow (chunks max_chunk_plain payload)

  unfoldable pub decrypt_chunked : List (List ℕ) → Call snow (List ℕ)
  decrypt_chunked packets = decrypt_each snow packets
