-- ===== src/Frame/Chunks.antt =====
-- `FrameAccumulator::feed` of src/frame.rs, one chunk at a time.
use notifiapp_transport.Common.{
  ℕ, ◌≤◌, ◌<◌, ◌≡◌, refl, ◌⊎◌, inl, arith, List, [], Option, none, some, length, length-take,
  Result, ok, err,
}
use notifiapp_transport.Error.{TransportError}
use notifiapp_transport.Frame.{FrameAccumulator, fresh, feed, finish, feed_first, feed_more}

-- Between frames the accumulator is empty; within one it holds a proper part of an admitted length.
abbrev pub IsWellFormed : ℕ → FrameAccumulator → Type 0
IsWellFormed max_bytes acc =
    ((acc.expected_len ≡ 0) × (acc.buffer ≡ []))
    ⊎ ((length acc.buffer < acc.expected_len) × (acc.expected_len ≤ max_bytes))

pub fresh-IsWellFormed : (max_bytes : ℕ) → IsWellFormed max_bytes fresh
fresh-IsWellFormed max_bytes = inl (refl, refl)

-- What `feed` promises of a state and a result.
abbrev pub Delivers : ℕ → Result (Option (List ℕ)) TransportError × FrameAccumulator → Type 0
Delivers max_bytes (ok none, acc) = IsWellFormed max_bytes acc
Delivers max_bytes (ok (some bytes), acc) = (acc ≡ fresh) × (length bytes ≤ max_bytes)
Delivers max_bytes (err e, acc) = Unit {0}

finish-Delivers :
    (max_bytes : ℕ) (acc : FrameAccumulator)
    → acc.expected_len ≤ max_bytes
    → Delivers max_bytes (finish acc)
unfolding finish
finish-Delivers max_bytes acc h = ground (arith, length-take acc.expected_len acc.buffer)

-- From a well-formed accumulator a successful feed leaves a well-formed one, an empty one if it
-- returns a frame, and no returned frame exceeds the limit.
pub feed-Delivers :
    (max_bytes : ℕ) (acc : FrameAccumulator) (chunk : List ℕ)
    → IsWellFormed max_bytes acc
    → Delivers max_bytes (feed acc chunk max_bytes)
unfolding feed feed_first feed_more
feed-Delivers max_bytes acc chunk w = grind (arith, finish-Delivers)
