-- ===== src/Crypto/Transport.antt =====
-- The two ends of a finished Noise session of src/crypto.rs.
use notifiapp_transport.Common.{
  ℕ, ◌+◌, ◌≤◌, ◌≡◌, refl, ap, ◌∙◌, arith, List, [], ◌∷◌, All, concat, length, some, ok, Result,
}
use notifiapp_transport.Error.{CryptoError}
use notifiapp_transport.Crypto.{
  Snow, NoiseSession, transport, read_message, write_message, encrypt_each, decrypt_each,
  encrypt_chunked, decrypt_chunked, chunks, max_chunk_plain,
}
use notifiapp_transport.Crypto.Chunks.{IsPiece, concat-chunks, chunks-IsPiece}

-- What snow documents of a finished session: while the writer's and the reader's counters agree, a
-- plaintext within the message limit is sealed with a tag of 16 bytes, the reader opens it, and the
-- counters agree again.
pub record Sealed (snow : Snow) (Synced : snow.TransportState → snow.TransportState → Type 0)
    (t r : snow.TransportState) (plain : List ℕ) : Type 0 where
  pub packet : List ℕ
  pub t' : snow.TransportState
  pub r' : snow.TransportState
  pub written : snow.transport_write t plain (length plain + 16) ≡ ok (packet, t')
  pub opened : snow.transport_read r packet (length packet) ≡ ok (plain, r')
  pub tagged : length packet ≡ length plain + 16
  pub synced : Synced t' r'

pub record Channel (snow : Snow) : Type 1 where
  pub Synced : snow.TransportState → snow.TransportState → Type 0
  pub seal :
      (t r : snow.TransportState) (plain : List ℕ)
      → Synced t r
      → length plain ≤ max_chunk_plain
      → Sealed snow Synced t r plain

module _ (snow : Snow) where
  abbrev pub online : snow.TransportState → NoiseSession snow
  online t = record { state = some (transport t) }

  write-written :
      (t t' : snow.TransportState) (plain packet : List ℕ) (room : ℕ)
      → snow.transport_write t plain room ≡ ok (packet, t')
      → write_message snow plain room (online t) ≡ (ok packet, online t')
  unfolding write_message
  write-written t t' plain packet room e = rw e

  pub read-opened :
      (r r' : snow.TransportState) (plain packet : List ℕ) (room : ℕ)
      → snow.transport_read r packet room ≡ ok (plain, r')
      → read_message snow packet room (online r) ≡ (ok plain, online r')
  unfolding read_message
  read-opened r r' plain packet room e = rw e

  -- Packets that the reader opens one by one to the given pieces.
  pub data Opens
      : snow.TransportState → List (List ℕ) → List (List ℕ) → snow.TransportState → Type 0 where
    done : {r : snow.TransportState} → Opens r [] [] r
    next :
        {r r' r'' : snow.TransportState} {packet plain : List ℕ} {packets plains : List (List ℕ)}
        → snow.transport_read r packet (length packet) ≡ ok (plain, r')
        → Opens r' packets plains r''
        → Opens r (packet ∷ packets) (plain ∷ plains) r''

  -- Each packet is within the message limit of Noise.
  abbrev pub IsPacket : List ℕ → Type 0
  IsPacket packet = length packet ≤ 65535

  -- What the writer makes of a list of pieces, and where it leaves both ends.
  pub record Transmitted (Synced : snow.TransportState → snow.TransportState → Type 0)
      (t r : snow.TransportState) (plains : List (List ℕ))
      (outcome : Result (List (List ℕ)) CryptoError × NoiseSession snow) : Type 0 where
    pub packets : List (List ℕ)
    pub t' : snow.TransportState
    pub r' : snow.TransportState
    pub sent : outcome ≡ (ok packets, online t')
    pub opens : Opens r packets plains r'
    pub limits : All IsPacket packets
    pub synced : Synced t' r'

  module _ (ch : Channel snow) where
    open ch use {Synced, seal}

    encrypt_each-Transmitted :
        (plains : List (List ℕ)) (t r : snow.TransportState)
        → Synced t r
        → All (IsPiece max_chunk_plain) plains
        → Transmitted Synced t r plains (encrypt_each snow plains (online t))
    unfolding encrypt_each
    encrypt_each-Transmitted [] t r s h = record {
      packets = [];
      t' = t;
      r' = r;
      sent = refl;
      opens = done;
      limits = tt;
      synced = s;
    }
    encrypt_each-Transmitted (c ∷ cs) t r s h =
        let one = seal t r c s h.0.1 in
        let rest = encrypt_each-Transmitted cs one.t' one.r' one.synced h.1 in
        record {
          packets = one.packet ∷ rest.packets;
          t' = rest.t';
          r' = rest.r';
          sent = rw (write-written t one.t' c one.packet (length c + 16) one.written, rest.sent);
          opens = next one.opened rest.opens;
          limits = (omega (arith, one.tagged, h.0.1), rest.limits);
          synced = rest.synced;
        }

    -- Any payload is encrypted, in packets within the limit, which open to its pieces in order.
    pub encrypt_chunked-Transmitted :
        (payload : List ℕ) (t r : snow.TransportState)
        → Synced t r
        → Transmitted Synced t r
            (chunks max_chunk_plain payload)
            (encrypt_chunked snow payload (online t))
    unfolding encrypt_chunked
    encrypt_chunked-Transmitted payload t r s =
        encrypt_each-Transmitted (chunks max_chunk_plain payload) t r s
          (chunks-IsPiece max_chunk_plain payload (omega arith))

  decrypt_each-Opens :
      {r r' : snow.TransportState} {packets plains : List (List ℕ)}
      → Opens r packets plains r'
      → decrypt_each snow packets (online r) ≡ (ok (concat plains), online r')
  unfolding decrypt_each
  decrypt_each-Opens done = refl
  decrypt_each-Opens (next {r = r} {r' = r'} {packet = packet} {plain = plain} e o) =
      rw (read-opened r r' plain packet (length packet) e, decrypt_each-Opens o)

  -- Of two Noise ends that agree, one decrypts what the other encrypts to the same payload, of any
  -- length, in packets of at most 65535 bytes, and they agree again.
  pub decrypt_chunked-encrypt_chunked :
      (ch : Channel snow) (payload : List ℕ) (t r : snow.TransportState)
      → ch.Synced t r
      → (packets : List (List ℕ)) × (t' : snow.TransportState) × (r' : snow.TransportState)
        × (encrypt_chunked snow payload (online t) ≡ (ok packets, online t'))
        × (decrypt_chunked snow packets (online r) ≡ (ok payload, online r'))
        × All IsPacket packets
        × ch.Synced t' r'
  unfolding decrypt_chunked
  decrypt_chunked-encrypt_chunked ch payload t r s =
      let m = encrypt_chunked-Transmitted ch payload t r s in
      (
        m.packets,
        m.t',
        m.r',
        m.sent,
        decrypt_each-Opens m.opens
            ∙ ap (λ p. (ok p, online m.r')) (concat-chunks max_chunk_plain payload (omega arith)),
        m.limits,
        m.synced,
      )
