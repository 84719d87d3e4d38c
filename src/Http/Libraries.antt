-- ===== src/Http/Libraries.antt =====
-- What src/http/client.rs calls of the crates `url` and `reqwest`.
use notifiapp_transport.Common.{ℕ, List, Bool, Option, Result, Text}

pub data Method : Type 0 where
  get : Method
  post : Method
  delete : Method

-- `json(..)` and `body(..)` of `reqwest`.
pub data Body : Type 0 where
  empty : Body
  json : List ℕ → Body
  octets : List ℕ → Body

pub record Request (Url : Type 0) : Type 0 where
  pub method : Method
  pub url : Url
  pub headers : List (Text × Text)
  pub body : Body

-- The libraries: the addresses of `url`, the client and the responses of `reqwest`.
pub record Libraries (Url Web Response : Type 0) : Type 0 where
  pub parse : Text → Option Url
  pub join : Url → Text → Option Url
  pub to_string : Url → Text
  pub is_header_value : Text → Bool
  pub build : ℕ → Option Text → Result Web Text
  pub send : Web → Request Url → Result Response Text
  pub status : Response → ℕ
  pub is_success : ℕ → Bool
  pub canonical_reason : ℕ → Option Text
  pub status_text : ℕ → Text
  pub bytes : Response → Result (List ℕ) Text
