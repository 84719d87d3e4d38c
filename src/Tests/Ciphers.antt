-- ===== src/Tests/Ciphers.antt =====
-- src/crypto.rs and the sending of frames, with a cipher that counts and pads.
use notifiapp_transport.Common.{
  ℕ, ◌≡◌, refl, arith, List, [], ◌∷◌, ◌++◌, map, none, ok, err, true, false, All,
}
use notifiapp_transport.Error.{invalid_state}
use notifiapp_transport.Tests.{codec, codec-IsLawful, snow, channel, sink}
use notifiapp_transport.Frame.{Frame, event, fresh}
use notifiapp_transport.Crypto.{
  NoiseSession, read_message, encrypt_chunked, decrypt_chunked, is_finished,
}
use notifiapp_transport.Crypto.Transport.{online, IsPacket, decrypt_chunked-encrypt_chunked}
use notifiapp_transport.Crypto.Session.{read, write, perform, perform_all, perform_all-after_error}
use notifiapp_transport.Ws.{Message}
use notifiapp_transport.Wire.{Wire, transmit}
use notifiapp_transport.Wire.Receiving.{Completes, inbound}
use notifiapp_transport.Wire.EndToEnd.{transmit-Completes}

abbrev bytes : List ℕ
bytes = 1 ∷ 2 ∷ 3 ∷ []

decrypt_chunked-encrypt_chunked_example :
    (packets : List (List ℕ)) × (t' : ℕ) × (r' : ℕ) × (encrypt_chunked snow bytes (online snow 4)
      ≡ (ok packets, online snow t'))
    × (decrypt_chunked snow packets (online snow 4) ≡ (ok bytes, online snow r'))
    × All (IsPacket snow) packets
    × (t' ≡ r')
decrypt_chunked-encrypt_chunked_example =
    decrypt_chunked-encrypt_chunked snow channel bytes 4 4 refl

-- A session that an error has left.
abbrev broken : NoiseSession snow
broken = record { state = none }

broken-err : perform snow (read bytes 3) broken ≡ (err invalid_state, broken)
unfolding perform read_message
broken-err = refl

perform_all-after_error_example :
    (is_finished snow broken ≡ false)
    × All
        (λ r. r ≡ err invalid_state)
        (perform_all snow (write bytes 19 ∷ read bytes 3 ∷ []) broken)
perform_all-after_error_example =
    perform_all-after_error snow (read bytes 3) (write bytes 19 ∷ read bytes 3 ∷ []) invalid_state
      broken broken broken-err

abbrev frame : Frame
frame = record { id = 5; kind = event; payload = 9 ∷ [] }

abbrev idle : Wire Message
idle = record { sends = 0; sent = [] }

transmit-Completes_example :
    let result =
      transmit codec snow sink Message.binary frame
        (record { noise = online snow 4; wire = idle }) in
    (packets : List (List ℕ)) × (t' : ℕ) × (r' : ℕ) × (result.0 ≡ true)
    × (result.1.noise ≡ online snow t')
    × (result.1.wire.sent ≡ [] ++ map Message.binary packets)
    × Completes codec snow 100 frame
        (inbound codec snow 100 4 fresh)
        packets
        (inbound codec snow 100 r' fresh)
    × (t' ≡ r')
transmit-Completes_example =
    transmit-Completes codec snow channel sink Message.binary 100 frame (5 ∷ 1 ∷ 9 ∷ []) 4 4 idle
      (λ n. refl) codec-IsLawful refl (omega arith) (omega arith) refl
