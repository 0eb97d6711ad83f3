-- ===== src/Protocol/Examples.antt =====
-- The translation of pkg/protocol at a single request.
use attachcloudip.Common.{◌≡◌, refl, [], ◌∷◌, true, Option, some, ok, arith, length, ◌≢◌}
use attachcloudip.Common.Map.{lookup}
use attachcloudip.Common.Text.{Text, codes, text_eq}
use attachcloudip.Protocol.Headers.{is_token, is_token_char}
use attachcloudip.Protocol.{
  HttpRequest, Request, http_to_tcp_request, tcp_to_http_request, Url, request_url, first_values,
}
use attachcloudip.Protocol.Requests.{IsMap, Agrees, tcp_to_http_request-http_to_tcp_request}

-- A parser that takes the whole URL for the path.
abbrev parse : Text → Option Url
parse url = some (record { path = url; query = []; host = [] })

abbrev sent : HttpRequest
sent = record {
  method = codes "GET";
  path = codes "/a";
  query = (codes "q", codes "1" ∷ codes "2" ∷ []) ∷ [];
  headers = (codes "Accept", codes "*/*" ∷ []) ∷ [];
  body = some (104 ∷ []);
  host = codes "example.org";
  proto = codes "HTTP/1.1";
}

sent-IsMap : IsMap sent.headers
unfolding lookup
sent-IsMap = (refl, tt)

host_filled : length sent.host ≢ 0
host_filled = ground arith

sent_is_token : is_token sent.method ≡ true
unfolding is_token is_token_char
sent_is_token = refl

abbrev parsed : Url
parsed = record { path = request_url sent.path (first_values [] sent.query); query = []; host = [] }

tcp_to_http_request-http_to_tcp_request_example :
    (t : Request) × (q : HttpRequest) × (http_to_tcp_request sent (codes "c1") 7 ≡ ok t)
    × (tcp_to_http_request parse t ≡ ok q)
    × Agrees sent parsed q
tcp_to_http_request-http_to_tcp_request_example =
    tcp_to_http_request-http_to_tcp_request parse sent parsed (104 ∷ []) (codes "c1") 7 sent-IsMap
      refl host_filled sent_is_token refl
