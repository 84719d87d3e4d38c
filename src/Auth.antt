-- ===== src/Auth.antt =====
-- src/auth.rs: the outcome of an authentication, and the hook that decides it.
use notifiapp_transport.Common.{List, Option, none, Result, ok, err, ℕ}
use notifiapp_transport.Error.{TransportError, auth_timeout}

pub data AuthOutcome : Type 0 where
  success : AuthOutcome
  unauthorized : AuthOutcome
  failed : AuthOutcome
  retry_with_new_payload : List ℕ → AuthOutcome

-- What the application implements: the payload to send, if any, and the reading of the response.
pub record AuthHandler : Type 0 where
  pub auth_payload : Option (List ℕ)
  pub process_auth_response : List ℕ → AuthOutcome

abbrev pub no_auth : AuthHandler
no_auth = record { auth_payload = none; process_auth_response = λ _. success }

-- `impl From<AuthOutcome> for Result<(), TransportError>`.
unfoldable pub from_outcome : AuthOutcome → Result (Unit {0}) TransportError
from_outcome success = ok tt
from_outcome AuthOutcome.unauthorized = err TransportError.unauthorized
from_outcome failed = err auth_timeout
from_outcome (retry_with_new_payload bytes) = err auth_timeout
