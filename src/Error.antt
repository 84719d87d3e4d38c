-- ===== src/Error.antt =====
-- src/error.rs: the error types. Every variant is there; the features `crypto` and `http` are on.
use notifiapp_transport.Common.{
  ℕ, zero, suc, ◌+◌, ◌/◌, ◌%◌, Text, codes, ◌++◌, [], ◌∷◌, ◌==◌, if◌then◌else◌,
}

pub data TransportError : Type 0 where
  connection_failed : Text → TransportError
  connection_closed : TransportError
  no_endpoints : TransportError
  invalid_url : Text → TransportError
  noise_handshake_failed : Text → TransportError
  noise_encrypt_failed : Text → TransportError
  noise_decrypt_failed : Text → TransportError
  unauthorized : TransportError
  auth_timeout : TransportError
  session_expired : TransportError
  version_mismatch : Text → Text → TransportError
  protocol_handshake_failed : TransportError
  payload_too_large : ℕ → TransportError
  encode_error : Text → TransportError
  decode_error : Text → TransportError
  request_timeout : TransportError
  channel_error : TransportError
  buffer_full : TransportError
  http_error : Text → TransportError
  sse_stream_closed : TransportError

pub data CryptoError : Type 0 where
  pattern_parse : Text → CryptoError
  handshake_failed : Text → CryptoError
  encrypt_failed : Text → CryptoError
  decrypt_failed : Text → CryptoError
  invalid_state : CryptoError
  invalid_key_length : CryptoError

-- The messages that `thiserror` derives.
unfoldable pub crypto_message : CryptoError → Text
crypto_message (pattern_parse s) = codes "noise pattern parse error: " ++ s
crypto_message (handshake_failed s) = codes "noise handshake failed: " ++ s
crypto_message (encrypt_failed s) = codes "noise encryption failed: " ++ s
crypto_message (decrypt_failed s) = codes "noise decryption failed: " ++ s
crypto_message invalid_state = codes "invalid noise state"
crypto_message invalid_key_length = codes "unexpected key length"

-- `impl From<CryptoError> for TransportError`.
unfoldable pub from_crypto : CryptoError → TransportError
from_crypto (handshake_failed s) = noise_handshake_failed s
from_crypto (encrypt_failed s) = noise_encrypt_failed s
from_crypto (decrypt_failed s) = noise_decrypt_failed s
from_crypto other = connection_failed (crypto_message other)

-- A number in decimal. A `usize` has at most 20 digits.
decimal_within : ℕ → ℕ → Text
decimal_within zero n = []
decimal_within (suc fuel) n =
    let rest = decimal_within fuel (n / 10) in
    if n / 10 == 0 then (48 + n % 10) ∷ [] else rest ++ ((48 + n % 10) ∷ [])

unfoldable pub decimal : ℕ → Text
unfolding decimal_within
decimal n = decimal_within 20 n

unfoldable pub message : TransportError → Text
message (connection_failed s) = codes "connection failed: " ++ s
message connection_closed = codes "connection closed"
message no_endpoints = codes "endpoint list is empty"
message (invalid_url s) = codes "invalid endpoint URL: " ++ s
message (noise_handshake_failed s) = codes "noise handshake failed: " ++ s
message (noise_encrypt_failed s) = codes "noise encryption failed: " ++ s
message (noise_decrypt_failed s) = codes "noise decryption failed: " ++ s
message unauthorized = codes "authentication failed: unauthorized"
message auth_timeout = codes "authentication timed out"
message session_expired = codes "session expired"
message (version_mismatch client server) =
    codes "version mismatch: client=" ++ (client ++ (codes ", server=" ++ server))
message protocol_handshake_failed = codes "protocol handshake failed"
message (payload_too_large max) =
    codes "payload exceeds maximum size of " ++ (decimal max ++ codes " bytes")
message (encode_error s) = codes "frame encoding failed: " ++ s
message (decode_error s) = codes "frame decoding failed: " ++ s
message request_timeout = codes "request timed out"
message channel_error = codes "internal channel error"
message buffer_full = codes "buffer is full, cannot enqueue frame"
message (http_error s) = codes "http error: " ++ s
message sse_stream_closed = codes "sse stream closed"
