-- ===== src/Client/Receive.antt =====
-- `recv_one_frame` of src/ws/client/connection_loop.rs.
use notifiapp_transport.Common.{
  ℕ, ◌≡◌, List, [], ◌∷◌, ◌++◌, map, Option, none, some, Text, Result, ok, err,
}
use notifiapp_transport.Error.{
  TransportError, connection_closed, noise_decrypt_failed, crypto_message,
}
use notifiapp_transport.Frame.{Frame, Postcard, fresh}
use notifiapp_transport.Crypto.{Snow, NoiseSession}
use notifiapp_transport.Wire.Inbound.{Inbound, Failure, undecrypted, malformed, receive_chunk}
use notifiapp_transport.Wire.Receiving.{Completes, final, partial}
use notifiapp_transport.Ws.{WsMessage}

-- What the stream gives, in order; behind the last item it has ended.
abbrev pub Incoming : Type 0
Incoming = List (Result WsMessage Text)

unfoldable pub to_transport : Failure → TransportError
to_transport (undecrypted e) = noise_decrypt_failed (crypto_message e)
to_transport (malformed e) = e

-- The result, the Noise session and what is left of the stream.
pub record Reading (snow : Snow) : Type 0 where
  pub result : Result Frame TransportError
  pub noise : NoiseSession snow
  pub left : Incoming

module _ (codec : Postcard) (snow : Snow) (max_bytes : ℕ) where
  abbrev pub reading :
      Result (Option Frame) Failure × Inbound snow
      → Incoming
      → (Inbound snow → Reading snow)
      → Reading snow
  reading (ok (some frame), i) left again = record {
    result = ok frame;
    noise = i.noise;
    left = left;
  }
  reading (ok none, i) left again = again i
  reading (err e, i) left again = record {
    result = err (to_transport e);
    noise = i.noise;
    left = left;
  }

  unfoldable pub recv_loop : Inbound snow → Incoming → Reading snow
  recv_loop i [] = record { result = err connection_closed; noise = i.noise; left = [] }
  recv_loop i (ok (WsMessage.binary bytes) ∷ rest) =
      reading (receive_chunk codec snow max_bytes bytes i) rest (λ i'. recv_loop i' rest)
  recv_loop i (ok (WsMessage.text t) ∷ rest) = record {
    result = err connection_closed;
    noise = i.noise;
    left = rest;
  }
  recv_loop i (err e ∷ rest) = record {
    result = err connection_closed;
    noise = i.noise;
    left = rest;
  }

  unfoldable pub recv_one_frame : NoiseSession snow → Incoming → Reading snow
  unfolding recv_loop
  recv_one_frame noise incoming = recv_loop (record { noise = noise; accumulator = fresh }) incoming

  abbrev pub packet_message : List ℕ → Result WsMessage Text
  packet_message p = ok (WsMessage.binary p)

  recv_loop-Completes :
      (frame : Frame) (rest : Incoming) {i i' : Inbound snow} {packets : List (List ℕ)}
      → Completes codec snow max_bytes frame i packets i'
      → recv_loop i (map packet_message packets ++ rest)
        ≡ record { result = ok frame; noise = i'.noise; left = rest }
  unfolding recv_loop
  recv_loop-Completes frame rest (final e) = rw e
  recv_loop-Completes frame rest (partial e c) = rw e (recv_loop-Completes frame rest c)

  -- recv_one_frame reads the packets of a frame as that frame and leaves what is behind them in
  -- the stream.
  pub recv_one_frame-Completes :
      (frame : Frame) (rest : Incoming) (noise : NoiseSession snow) (i' : Inbound snow)
      (packets : List (List ℕ))
      → Completes codec snow max_bytes frame
          (record { noise = noise; accumulator = fresh })
          packets
          i'
      → recv_one_frame noise (map packet_message packets ++ rest)
        ≡ record { result = ok frame; noise = i'.noise; left = rest }
  unfolding recv_one_frame
  recv_one_frame-Completes frame rest noise i' packets c = recv_loop-Completes frame rest c
