-- ===== src/Wire/Inbound.antt =====
-- The receiving half of an encrypted connection, which the loops of
-- src/ws/client/connection_loop.rs and src/ws/server/session.rs share: a binary message is
-- decrypted, fed to the accumulator, and a complete frame decoded.
use notifiapp_transport.Common.{ℕ, List, Option, none, some, length, Result, ok, err, arith}
use notifiapp_transport.Error.{TransportError, CryptoError}
use notifiapp_transport.Frame.{Frame, Postcard, decode_frame, FrameAccumulator, feed}
use notifiapp_transport.Frame.Chunks.{IsWellFormed, Delivers, feed-Delivers, fresh-IsWellFormed}
use notifiapp_transport.Crypto.{Snow, NoiseSession, read_message}

pub record Inbound (snow : Snow) : Type 0 where
  pub noise : NoiseSession snow
  pub accumulator : FrameAccumulator

-- What went wrong: the decryption, or the reassembly or decoding.
pub data Failure : Type 0 where
  undecrypted : CryptoError → Failure
  malformed : TransportError → Failure

module _ (codec : Postcard) (snow : Snow) (max_bytes : ℕ) where
  decoded : Option (List ℕ) → Inbound snow → Result (Option Frame) Failure × Inbound snow
  decoded none i = (ok none, i)
  decoded (some bytes) i = elim (decode_frame codec bytes) [
    | ok frame ↦ (ok (some frame), i)
    | err e ↦ (err (malformed e), i)
  ]

  fed :
      NoiseSession snow
      → Result (Option (List ℕ)) TransportError × FrameAccumulator
      → Result (Option Frame) Failure × Inbound snow
  unfolding decoded
  fed noise (ok o, acc) = decoded o (record { noise = noise; accumulator = acc })
  fed noise (err e, acc) = (err (malformed e), record { noise = noise; accumulator = acc })

  decrypted :
      FrameAccumulator
      → Result (List ℕ) CryptoError × NoiseSession snow
      → Result (Option Frame) Failure × Inbound snow
  unfolding fed
  decrypted acc (ok bytes, noise) = fed noise (feed acc bytes max_bytes)
  decrypted acc (err e, noise) = (err (undecrypted e), record { noise = noise; accumulator = acc })

  -- The decryption buffer is as long as the message.
  unfoldable pub receive_chunk :
      List ℕ → Inbound snow → Result (Option Frame) Failure × Inbound snow
  unfolding decrypted
  receive_chunk packet i =
      decrypted i.accumulator (read_message snow packet (length packet) i.noise)

  -- Unless a chunk is refused, it leaves the accumulator well formed.
  abbrev pub IsIntact : Result (Option Frame) Failure × Inbound snow → Type 0
  IsIntact (ok o, i) = IsWellFormed max_bytes i.accumulator
  IsIntact (err e, i) = Unit {0}

  decoded-IsIntact :
      (o : Option (List ℕ)) (i : Inbound snow)
      → IsWellFormed max_bytes i.accumulator
      → IsIntact (decoded o i)
  unfolding decoded
  decoded-IsIntact none i w = w
  decoded-IsIntact (some bytes) i w = ground arith

  fed-IsIntact :
      (noise : NoiseSession snow) (r : Result (Option (List ℕ)) TransportError × FrameAccumulator)
      → Delivers max_bytes r
      → IsIntact (fed noise r)
  unfolding fed
  fed-IsIntact noise (ok none, acc) d = d
  fed-IsIntact noise (ok (some bytes), acc) d =
      decoded-IsIntact (some bytes) (record { noise = noise; accumulator = acc })
        (rw d.0 (fresh-IsWellFormed max_bytes))
  fed-IsIntact noise (err e, acc) d = tt

  decrypted-IsIntact :
      (acc : FrameAccumulator) (r : Result (List ℕ) CryptoError × NoiseSession snow)
      → IsWellFormed max_bytes acc
      → IsIntact (decrypted acc r)
  unfolding decrypted
  decrypted-IsIntact acc (ok bytes, noise) w =
      fed-IsIntact noise (feed acc bytes max_bytes) (feed-Delivers max_bytes acc bytes w)
  decrypted-IsIntact acc (err e, noise) w = tt

  pub receive_chunk-IsIntact :
      (packet : List ℕ) (i : Inbound snow)
      → IsWellFormed max_bytes i.accumulator
      → IsIntact (receive_chunk packet i)
  unfolding receive_chunk
  receive_chunk-IsIntact packet i w =
      decrypted-IsIntact i.accumulator (read_message snow packet (length packet) i.noise) w
