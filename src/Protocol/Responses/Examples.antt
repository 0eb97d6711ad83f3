-- ===== src/Protocol/Responses/Examples.antt =====
-- A response of two content types through the translator of pkg/protocol.
use attachcloudip.Common.{◌≡◌, refl, [], ◌∷◌, some, ok, arith, inr, returns, true, contains}
use attachcloudip.Common.Map.{lookup}
use attachcloudip.Common.Text.{codes, text_eq, text_beq}
use attachcloudip.Protocol.Requests.{IsMap}
use attachcloudip.Protocol.Headers.{canonical_key}
use attachcloudip.Protocol.Writer.{ResponseWriter, new_writer, body_allowed}
use attachcloudip.Protocol.Responses.{
  Response, HttpResponse, tcp_to_http_response, http_response_to_tcp,
}
use attachcloudip.Protocol.Responses.Values.{IsCanonical}
use attachcloudip.Protocol.Responses.RoundTrip.{Keeps, tcp_to_http_response-http_response_to_tcp}

abbrev response : HttpResponse
response = record {
  status_code = 404;
  header =
      (codes "Content-Type", codes "text/plain" ∷ codes "text/html" ∷ [])
      ∷ (codes "X-Id", codes "7" ∷ [])
      ∷ [];
  body = some (104 ∷ 105 ∷ []);
  proto = codes "HTTP/1.1";
}

response-IsMap : IsMap response.header
unfolding lookup text_beq
response-IsMap = (refl, (refl, tt))

response-IsCanonical : IsCanonical response.header
unfolding canonical_key contains
response-IsCanonical = (refl, (refl, tt))

response_allowed : body_allowed 404 ≡ true
unfolding body_allowed
response_allowed = refl

tcp_to_http_response-http_response_to_tcp_example :
    (t : Response) × (w : ResponseWriter) × (http_response_to_tcp response (codes "r1") 9 ≡ ok t)
    × (tcp_to_http_response true t new_writer ≡ returns (ok tt, w))
    × Keeps response (104 ∷ 105 ∷ []) w
tcp_to_http_response-http_response_to_tcp_example =
    tcp_to_http_response-http_response_to_tcp response (104 ∷ 105 ∷ []) (codes "r1") 9 refl
      response-IsMap response-IsCanonical (omega arith) (omega arith) (inr response_allowed)
