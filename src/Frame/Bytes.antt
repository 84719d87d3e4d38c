-- ===== src/Frame/Bytes.antt =====
-- The length prefix of src/frame.rs.
use notifiapp_transport.Common.{ℕ, ◌<◌, ◌^◌, ◌≡◌, arith}
use notifiapp_transport.Frame.{to_le_bytes, from_le_bytes}

-- The four bytes of a `u32` give it back.
pub from_le_bytes-to_le_bytes : (n : ℕ) → n < 2 ^ 32 → from_le_bytes (to_le_bytes n) ≡ n
from_le_bytes-to_le_bytes n h = omega arith
