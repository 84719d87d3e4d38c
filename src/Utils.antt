-- ===== src/Utils.antt =====
-- src/utils.rs: which names and versions of a protocol are accepted.
pub mod Names
use notifiapp_transport.Common.{
  ℕ, ◌≡◌, refl, [], ◌∷◌, Bool, true, false, Text, leb, ◌==◌, ◌&&◌, ◌||◌,
}

-- A byte beyond 127 is part of a code point beyond 127, and neither passes.
unfoldable pub is_valid : ℕ → Bool
is_valid b =
    (leb b'a' b && leb b b'z')
    || ((leb b'A' b && leb b b'Z')
        || ((leb b'0' b && leb b b'9') || (b == b'.' || (b == b'-' || b == b'_'))))

-- `false` is the panic.
unfoldable pub validate_protocol_string : Text → Bool
unfolding is_valid
validate_protocol_string [] = true
validate_protocol_string (b ∷ s) = is_valid b && validate_protocol_string s
