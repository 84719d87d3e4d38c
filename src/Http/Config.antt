-- ===== src/Http/Config.antt =====
-- `HttpClientConfig` of src/http/client.rs. Durations are numbers of nanoseconds.
use notifiapp_transport.Common.{ℕ, Option, none, some, Text}

pub record HttpClientConfig : Type 0 where
  pub base_url : Text
  pub request_timeout : ℕ
  pub auth_token : Option Text

unfoldable pub new : Text → HttpClientConfig
new base_url = record { base_url = base_url; request_timeout = 30000000000; auth_token = none }

unfoldable pub with_auth_token : Text → HttpClientConfig → HttpClientConfig
with_auth_token token self = record self { auth_token = some token }
