-- ===== src/Frame/Oversize.antt =====
-- A frame of src/frame.rs beyond the limit of its receiver.
use notifiapp_transport.Common.{ℕ, ◌^◌, ◌%◌, ◌<◌, ◌≡◌, arith, List, [], ◌++◌, concat, length, err}
use notifiapp_transport.Error.{payload_too_large}
use notifiapp_transport.Frame.{FrameAccumulator, fresh, feed, feed_first, to_le_bytes}
use notifiapp_transport.Frame.Arrivals.{Cuts, prefix_split}
use notifiapp_transport.Frame.Bytes.{from_le_bytes-to_le_bytes}

module _ (max_bytes : ℕ) where
  -- The accumulator keeps the length that it refused.
  abbrev pub refused : ℕ → FrameAccumulator
  refused n = record { expected_len = n; buffer = [] }

  feed-prefixed :
      (n : ℕ) (rest : List ℕ)
      → n < 2 ^ 32
      → max_bytes < n
      → feed fresh (to_le_bytes n ++ rest) max_bytes
        ≡ (err (payload_too_large max_bytes), refused n)
  unfolding feed feed_first
  feed-prefixed n rest h m = ground (arith, from_le_bytes-to_le_bytes n)

  -- The first chunk of such a frame is refused.
  pub feed-Cuts :
      (payload : List ℕ) (chunks : List (List ℕ)) (cut : Cuts payload chunks)
      → length payload < 2 ^ 32
      → max_bytes < length payload
      → feed fresh cut.first max_bytes
        ≡ (err (payload_too_large max_bytes), refused (length payload))
  feed-Cuts payload chunks cut w m =
      let n : ℕ = length payload in
      let e : n % 2 ^ 32 ≡ n = omega arith in
      let (r, f, g) =
        prefix_split cut.first (concat cut.others) payload _ _ _ _ (rw e at cut.whole) cut.prefix in
      rw f (feed-prefixed n r w m)
