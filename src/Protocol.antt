-- ===== src/Protocol.antt =====
-- pkg/protocol/translator.go and pkg/types/request.go: HTTP requests as internal requests and back.
-- Of a `http.Request` the model has what the translator uses, with the query and the body as the
-- library reads them; the parsing of a URL is the library's.
pub mod Headers
pub mod Writer
pub mod Responses
pub mod Requests
mod Examples
use attachcloudip.Common.{
  ℕ, List, [], ◌∷◌, ◌++◌, Bool, true, false, Option, none, some, if◌then◌else◌, ◌==◌, nat_eq,
  length, Result, ok, err,
}
use attachcloudip.Common.Map.{Map, insert}
use attachcloudip.Common.Text.{Text, text_eq, codes}
use attachcloudip.Protocol.Headers.{is_token}

-- The constants of the source name six types, two of them the same.
pub data RequestType : Type 0 where
  http tcp register heartbeat proxy port_allocation : RequestType

-- The payload is never set.
pub record Request : Type 0 where
  pub id : Text
  pub type : RequestType
  pub path : Text
  pub method : Text
  pub headers : Map Text (List Text)
  pub body : List ℕ
  pub timestamp : ℕ
  pub query_params : Map Text Text
  pub host : Text
  pub protocol : Text
  pub client_id : Text

pub record HttpRequest : Type 0 where
  pub method : Text
  pub path : Text
  pub query : Map Text (List Text)
  pub headers : Map Text (List Text)
  pub body : Option (List ℕ)
  pub host : Text
  pub proto : Text

pub data Error : Type 0 where
  failed_to_read_body failed_to_create_request : Error

-- The two loops of `HTTPToTCPRequest` over the entries that Go visits.
unfoldable pub copy_headers : Map Text (List Text) → Map Text (List Text) → Map Text (List Text)
copy_headers headers [] = headers
copy_headers headers ((key, values) ∷ rest) = copy_headers (insert key values headers) rest

unfoldable pub first_values : Map Text Text → Map Text (List Text) → Map Text Text
first_values params [] = params
first_values params ((key, []) ∷ rest) = first_values params rest
first_values params ((key, value ∷ values) ∷ rest) = first_values (insert key value params) rest

unfoldable pub http_to_tcp_request : HttpRequest → Text → ℕ → Result Error Request
unfolding copy_headers first_values
http_to_tcp_request r client_id now = elim r.body [
  | none ↦ err failed_to_read_body
  | some body ↦ ok (record {
    id = [];
    type = RequestType.http;
    path = r.path;
    method = r.method;
    headers = copy_headers [] r.headers;
    body = body;
    timestamp = now;
    query_params = first_values [] r.query;
    host = r.host;
    protocol = r.proto;
    client_id = client_id;
  })
]

-- `fmt.Sprintf("%s=%s", key, value)`
pub pair : Text → Text → Text
pair key value = key ++ (b'=' ∷ value)

-- The loop that writes the URL.
unfoldable pub add_params : Bool → Text → Map Text Text → Text
unfolding pair
add_params first url [] = url
add_params true url ((key, value) ∷ rest) = add_params false (url ++ (b'?' ∷ pair key value)) rest
add_params false url ((key, value) ∷ rest) = add_params false (url ++ (b'&' ∷ pair key value)) rest

unfoldable pub request_url : Text → Map Text Text → Text
unfolding add_params
request_url path params = add_params true path params

-- What the parser of URLs makes of one.
pub record Url : Type 0 where
  pub path : Text
  pub query : Map Text (List Text)
  pub host : Text

-- `http.NewRequest`, where `parse` is the library's parser of URLs: no method is GET, and a method that
-- is no token is refused.
unfoldable pub request_method : Text → Text
request_method [] = codes "GET"
request_method (c ∷ method) = c ∷ method

unfoldable pub make_request : Text → List ℕ → Option Url → Option HttpRequest
make_request method body none = none
make_request method body (some u) = some (record {
  method = method;
  path = u.path;
  query = u.query;
  headers = [];
  body = some body;
  host = u.host;
  proto = codes "HTTP/1.1";
})

unfoldable pub new_request : (Text → Option Url) → Text → Text → List ℕ → Option HttpRequest
unfolding request_method make_request
new_request parse method url body =
    if is_token (request_method method)
    then make_request (request_method method) body (parse url)
    else none

-- What is set on the request.
unfoldable pub with_headers : Request → Option HttpRequest → Result Error HttpRequest
with_headers r none = err failed_to_create_request
with_headers r (some req) =
    ok (record req { headers = r.headers; host = if length r.host == 0 then req.host else r.host })

unfoldable pub tcp_to_http_request : (Text → Option Url) → Request → Result Error HttpRequest
unfolding request_url new_request with_headers
tcp_to_http_request parse r =
    with_headers r (new_request parse r.method (request_url r.path r.query_params) r.body)
