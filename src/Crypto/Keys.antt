-- ===== src/Crypto/Keys.antt =====
-- `generate_keypair` of src/crypto.rs.
use notifiapp_transport.Common.{
  ℕ, List, Result, ok, err, map_err, ◌>>=◌, length, ◌==◌, if◌then◌else◌,
}
use notifiapp_transport.Error.{CryptoError, pattern_parse, handshake_failed, invalid_key_length}
use notifiapp_transport.Crypto.{Snow, noise_pattern}

-- `try_into` to an array of 32 bytes.
unfoldable pub key_32 : List ℕ → Result (List ℕ) CryptoError
key_32 bytes = if length bytes == 32 then ok bytes else err invalid_key_length

unfoldable pub generate_keypair : Snow → Result (List ℕ × List ℕ) CryptoError
unfolding key_32
generate_keypair snow = do
  pattern ← map_err pattern_parse (snow.parse noise_pattern)
  kp ← map_err handshake_failed (snow.generate_keypair (snow.builder pattern))
  private ← key_32 kp.0
  public ← key_32 kp.1
  ok (private, public)
