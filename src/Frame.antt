-- ===== src/Frame.antt =====
-- src/frame.rs: the frames of the transport, their length prefix and their reassembly.
-- A byte is a number below 256 and a `Vec<u8>` a list of them. The serialiser postcard is a
-- parameter; its `to_string`ed errors are texts.
pub mod Bytes
pub mod Chunks
pub mod Arrivals
pub mod Oversize
pub mod Stream
use notifiapp_transport.Common.{
  ℕ, ◌+◌, ◌*◌, ◌/◌, ◌%◌, ◌^◌, ◌≡◌, List, [], ◌∷◌, ◌++◌, Bool, Option, none, some, ltb, leb, ◌==◌,
  if◌then◌else◌, length, take, drop, Text, codes, Result, ok, err, map_err, ◌>>=◌,
}
use notifiapp_transport.Error.{TransportError, encode_error, decode_error, payload_too_large}

pub data FrameKind : Type 0 where
  message event ping pong : FrameKind

pub record Frame : Type 0 where
  pub id : ℕ
  pub kind : FrameKind
  pub payload : List ℕ

-- postcard, as the crate calls it.
pub record Postcard : Type 0 where
  pub to_stdvec : Frame → Result (List ℕ) Text
  pub from_bytes : List ℕ → Result Frame Text

-- `u32::to_le_bytes` and `u32::from_le_bytes`.
abbrev pub to_le_bytes : ℕ → List ℕ
to_le_bytes n = n % 256 ∷ n / 256 % 256 ∷ n / 65536 % 256 ∷ n / 16777216 % 256 ∷ []

abbrev pub from_le_bytes : List ℕ → ℕ
from_le_bytes (a ∷ b ∷ c ∷ d ∷ []) = a + 256 * b + 65536 * c + 16777216 * d
from_le_bytes _ = 0

-- The length is cast to `u32`, which wraps.
unfoldable pub encode_frame : Postcard → Frame → Result (List ℕ) TransportError
encode_frame codec frame = do
  payload ← map_err encode_error (codec.to_stdvec frame)
  ok (to_le_bytes (length payload % 2 ^ 32) ++ payload)

unfoldable pub decode_frame : Postcard → List ℕ → Result Frame TransportError
decode_frame codec bytes = map_err decode_error (codec.from_bytes bytes)

pub record FrameAccumulator : Type 0 where
  pub expected_len : ℕ
  pub buffer : List ℕ

abbrev pub fresh : FrameAccumulator
fresh = record { expected_len = 0; buffer = [] }

-- The end of `feed`: a complete frame is handed out and the accumulator cleared.
unfoldable pub finish :
    FrameAccumulator → Result (Option (List ℕ)) TransportError × FrameAccumulator
finish acc =
    if leb acc.expected_len (length acc.buffer)
    then (ok (some (take acc.expected_len acc.buffer)), fresh)
    else (ok none, acc)

unfoldable pub too_short : Text
too_short = codes "frame too short for length prefix"

-- The branch of `feed` for the first chunk of a frame.
unfoldable pub feed_first :
    FrameAccumulator → List ℕ → ℕ → Result (Option (List ℕ)) TransportError × FrameAccumulator
feed_first acc chunk max_bytes =
    let n = from_le_bytes (take 4 chunk) in
    if ltb (length chunk) 4
    then (err (decode_error too_short), acc)
    else (if ltb max_bytes n
        then (err (payload_too_large max_bytes), record acc { expected_len = n })
        else finish (record { expected_len = n; buffer = drop 4 chunk }))

-- Its branch for a later chunk.
unfoldable pub feed_more :
    FrameAccumulator → List ℕ → ℕ → Result (Option (List ℕ)) TransportError × FrameAccumulator
feed_more acc chunk max_bytes =
    let acc' = record acc { buffer = acc.buffer ++ chunk } in
    if ltb max_bytes (length acc'.buffer)
    then (err (payload_too_large max_bytes), acc')
    else finish acc'

unfoldable pub feed :
    FrameAccumulator → List ℕ → ℕ → Result (Option (List ℕ)) TransportError × FrameAccumulator
feed acc chunk max_bytes =
    if acc.expected_len == 0 then feed_first acc chunk max_bytes else feed_more acc chunk max_bytes
