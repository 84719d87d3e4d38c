-- ===== src/Wire/Receiving.antt =====
-- One frame received, chunk by chunk.
use notifiapp_transport.Common.{arith, ℕ, ◌≡◌, List, [], ◌∷◌, none, some, length, ok}
use notifiapp_transport.Frame.{Frame, Postcard, decode_frame, FrameAccumulator, fresh, feed}
use notifiapp_transport.Frame.Arrivals.{Arrives, last, more}
use notifiapp_transport.Crypto.{Snow}
use notifiapp_transport.Crypto.Transport.{Opens, done, next, online, read-opened}
use notifiapp_transport.Wire.Inbound.{Inbound, receive_chunk}

module _ (codec : Postcard) (snow : Snow) (max_bytes : ℕ) where
  abbrev pub inbound : snow.TransportState → FrameAccumulator → Inbound snow
  inbound r acc = record { noise = online snow r; accumulator = acc }

  -- The packets of one frame: each but the last is taken in, and the last one gives the frame.
  pub data Completes (frame : Frame) : Inbound snow → List (List ℕ) → Inbound snow → Type 0 where
    final :
        {i i' : Inbound snow} {p : List ℕ}
        → receive_chunk codec snow max_bytes p i ≡ (ok (some frame), i')
        → Completes frame i (p ∷ []) i'
    partial :
        {i i' i'' : Inbound snow} {p : List ℕ} {ps : List (List ℕ)}
        → receive_chunk codec snow max_bytes p i ≡ (ok none, i')
        → Completes frame i' ps i''
        → Completes frame i (p ∷ ps) i''

  decode-ok :
      (payload : List ℕ) (f : Frame)
      → codec.from_bytes payload ≡ ok f
      → decode_frame codec payload ≡ ok f
  unfolding decode_frame
  decode-ok payload f d = rw d

  receive-some :
      (r r' : snow.TransportState) (acc acc' : FrameAccumulator) (packet plain payload : List ℕ)
      (f : Frame)
      → snow.transport_read r packet (length packet) ≡ ok (plain, r')
      → feed acc plain max_bytes ≡ (ok (some payload), acc')
      → codec.from_bytes payload ≡ ok f
      → receive_chunk codec snow max_bytes packet (inbound r acc) ≡ (ok (some f), inbound r' acc')
  unfolding receive_chunk
  receive-some r r' acc acc' packet plain payload f e a d =
      rw (read-opened snow r r' plain packet (length packet) e, a)
        (ground (arith, decode-ok payload f d))

  receive-none :
      (r r' : snow.TransportState) (acc acc' : FrameAccumulator) (packet plain : List ℕ)
      → snow.transport_read r packet (length packet) ≡ ok (plain, r')
      → feed acc plain max_bytes ≡ (ok none, acc')
      → receive_chunk codec snow max_bytes packet (inbound r acc) ≡ (ok none, inbound r' acc')
  unfolding receive_chunk
  receive-none r r' acc acc' packet plain e a =
      rw (read-opened snow r r' plain packet (length packet) e, a)

  pub Opens-Completes :
      (frame : Frame) (payload : List ℕ) {r r' : snow.TransportState} {acc : FrameAccumulator}
      {packets plains : List (List ℕ)}
      → codec.from_bytes payload ≡ ok frame
      → Opens snow r packets plains r'
      → Arrives max_bytes payload acc plains
      → Completes frame (inbound r acc) packets (inbound r' fresh)
  Opens-Completes frame payload d done a = elim a [ ]
  Opens-Completes frame payload d (next {packet = p} {plain = c} e done) (last a) =
      final (receive-some _ _ _ _ p c payload frame e a d)
  Opens-Completes frame payload d (next {packet = p} {plain = c} e o) (more a rest) =
      partial (receive-none _ _ _ _ p c e a) (Opens-Completes frame payload d o rest)
