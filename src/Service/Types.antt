-- ===== src/Service/Types.antt =====
-- pkg/service/tunnel_service.go: the messages and the records of the tunnel service. Metadata and
-- headers are maps from text to text; a body is its bytes; a pointer that may be nil is an `Option`.
use attachcloudip.Common.{ℕ, List, Option, Bool}
use attachcloudip.Common.Map.{Map}
use attachcloudip.Common.Text.{Text}

pub record HttpRequest : Type 0 where
  pub method : Text
  pub path : Text
  pub headers : Map Text Text
  pub body : List ℕ

pub record HttpResponse : Type 0 where
  pub status_code : ℕ
  pub headers : Map Text Text
  pub body : List ℕ

pub data StreamRequestType : Type 0 where
  http_request http_response heartbeat path_update : StreamRequestType

pub data StreamResponseType : Type 0 where
  http_request http_response error registration_success : StreamResponseType

pub record StreamRequest : Type 0 where
  pub type : StreamRequestType
  pub request_id : Text
  pub request : Option HttpRequest
  pub protocol : Text

pub record StreamResponse : Type 0 where
  pub type : StreamResponseType
  pub request_id : Text
  pub request : Option HttpRequest
  pub response : Option HttpResponse
  pub message : Text
  pub port : ℕ

pub record ClientInfo : Type 0 where
  pub id : Text
  pub session_id : Text
  pub paths : List Text
  pub description : Text
  pub metadata : Map Text Text
  pub last_seen : ℕ
  pub status : Text
  pub protocol : Text
  pub port : ℕ

pub data ConnectionOptionsProtocol : Type 0 where
  http tcp : ConnectionOptionsProtocol

-- Buffer size, interval and timeout are Go integers, here as their 64-bit patterns.
pub record ConnectionOptions : Type 0 where
  pub protocol : ConnectionOptionsProtocol
  pub buffer_size : ℕ
  pub keep_alive : Bool
  pub keep_alive_interval : ℕ
  pub idle_timeout : ℕ
