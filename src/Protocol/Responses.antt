-- ===== src/Protocol/Responses.antt =====
-- pkg/protocol/translator.go: HTTP responses as internal responses and back. `Headers` is in the order
-- in which Go visits it.
pub mod Values
pub mod RoundTrip
mod Examples
use attachcloudip.Common.{
  ℕ, List, [], ◌∷◌, Bool, true, false, Option, none, some, if◌then◌else◌, ◌==◌, nat_eq, length,
  Outcome, returns, ◌>>=◌, Result, ok, err,
}
use attachcloudip.Common.Text.{Text, codes}
use attachcloudip.Strings.Decimal.{decimal}
use attachcloudip.Protocol.Headers.{Header, add, set, get}
use attachcloudip.Protocol.Writer.{ResponseWriter, write_header, write}

-- `Response` of pkg/types/request.go.
pub record Response : Type 0 where
  pub request_id : Text
  pub status_code : ℕ
  pub headers : Header
  pub body : List ℕ
  pub error : Text
  pub timestamp : ℕ
  pub port : ℕ
  pub client_id : Text
  pub protocol : Text
  pub content_type : Text

pub data Error : Type 0 where
  failed_to_read_body failed_to_write_body : Error

-- The two nested loops.
unfoldable pub add_values : Header → Text → List Text → Header
add_values h key [] = h
add_values h key (value ∷ rest) = add_values (add h key value) key rest

unfoldable pub add_headers : Header → Header → Header
unfolding add_values
add_headers h [] = h
add_headers h ((key, list) ∷ rest) = add_headers (add_values h key list) rest

-- What is set before the status.
unfoldable pub with_content_type : Header → Text → Header
with_content_type h [] = h
with_content_type h (c ∷ text) = set h (codes "Content-Type") (c ∷ text)

unfoldable pub response_headers : Response → Header → Header
unfolding add_headers with_content_type
response_headers r h =
    set (with_content_type (add_headers h r.headers) r.content_type) (codes "Content-Length")
      (decimal (length r.body))

write_result : Bool × ResponseWriter → Result Error (Unit {0}) × ResponseWriter
write_result (true, w) = (ok tt, w)
write_result (false, w) = (err failed_to_write_body, w)

unfoldable pub write_body :
    Bool → List ℕ → ResponseWriter → Result Error (Unit {0}) × ResponseWriter
unfolding write_result
write_body sends [] w = (ok tt, w)
write_body sends (b ∷ body) w = write_result (write sends w (b ∷ body))

-- `TCPToHTTPResponse`
unfoldable pub tcp_to_http_response :
    Bool → Response → ResponseWriter → Outcome (Result Error (Unit {0}) × ResponseWriter)
unfolding response_headers write_body
tcp_to_http_response sends r w =
    write_header (record w { headers = response_headers r w.headers }) r.status_code >>= λ w'.
    returns (write_body sends r.body w')

-- What `HTTPResponseToTCP` uses of a `http.Response`; `none` is a body that cannot be read.
pub record HttpResponse : Type 0 where
  pub status_code : ℕ
  pub header : Header
  pub body : Option (List ℕ)
  pub proto : Text

unfoldable pub http_response_to_tcp : HttpResponse → Text → ℕ → Result Error Response
http_response_to_tcp r request_id now = elim r.body [
  | none ↦ err failed_to_read_body
  | some body ↦ ok (record {
    request_id = request_id;
    status_code = r.status_code;
    headers = r.header;
    body = body;
    error = [];
    timestamp = now;
    port = 0;
    client_id = [];
    protocol = r.proto;
    content_type = get r.header (codes "Content-Type");
  })
]
