-- ===== src/Protocol/Responses/RoundTrip.antt =====
-- What a response keeps through pkg/protocol/translator.go.
use attachcloudip.Common.{
  ℕ, ◌≤◌, ◌<◌, ◌≡◌, ◌↔◌, ◌⊎◌, refl, ap, ◌∙◌, List, [], ◌∷◌, ◌++◌, Bool, true, some, if◌then◌else◌,
  ◌==◌, nat_eq, length, arith, contains, inl, inr, returns, panics, ok,
}
use attachcloudip.Common.Map.{insert}
use attachcloudip.Common.Text.{Text, codes, text_eq, text_beq_iff}
use attachcloudip.Strings.Decimal.{decimal}
use attachcloudip.Protocol.Requests.{IsMap}
use attachcloudip.Protocol.Headers.{
  Header, canonical_key, values, set, first_value, get, values-set,
}
use attachcloudip.Protocol.Writer.{ResponseWriter, new_writer, write_header, body_allowed, write}
use attachcloudip.Protocol.Responses.{
  Response, HttpResponse, add_headers, with_content_type, response_headers, write_body,
  tcp_to_http_response, http_response_to_tcp,
}
use attachcloudip.Protocol.Responses.Values.{
  IsCanonical, collected, values-add_headers, values-nil, collected-values,
}

canonical_type : canonical_key (codes "Content-Type") ≡ codes "Content-Type"
unfolding canonical_key contains
canonical_type = refl

canonical_length : canonical_key (codes "Content-Length") ≡ codes "Content-Length"
unfolding canonical_key contains
canonical_length = refl

-- Of several content types the first stays, if it is not empty.
abbrev pub one_type : List Text → List Text
one_type [] = []
one_type ([] ∷ list) = [] ∷ list
one_type ((c ∷ text) ∷ list) = (c ∷ text) ∷ []

-- The headers that a response is sent with.
abbrev pub kept_values : HttpResponse → List ℕ → Text → List Text
kept_values r body k =
    if codes "Content-Length" == k
    then decimal (length body) ∷ []
    else if codes "Content-Type" == k
    then one_type (values k r.header)
    else values k r.header

pub record Keeps (r : HttpResponse) (sent : List ℕ) (w : ResponseWriter) : Type 0 where
  pub status : w.status ≡ some r.status_code
  pub no_informational : w.informational ≡ []
  pub body : w.body ≡ sent
  pub headers : (k : Text) → values k w.headers ≡ kept_values r sent k

with_first_value :
    (k : Text) (h : Header) (list : List Text)
    → values (codes "Content-Type") h ≡ list
    → values k (with_content_type h (first_value list))
      ≡ (if codes "Content-Type" == k then one_type list else values k h)
unfolding with_content_type first_value
with_first_value k h [] e = ground (arith, e, text_beq_iff (codes "Content-Type") k)
with_first_value k h ([] ∷ list) e = ground (arith, e, text_beq_iff (codes "Content-Type") k)
with_first_value k h ((c ∷ text) ∷ list) e =
    ground (arith, values-set k h (codes "Content-Type") (c ∷ text), canonical_type)

get_content_type :
    (m : Header) → get m (codes "Content-Type") ≡ first_value (values (codes "Content-Type") m)
unfolding get
get_content_type m = ap (λ key. first_value (values key m)) canonical_type

module _ (r : HttpResponse) (body : List ℕ) (request_id : Text) (now : ℕ) where
  abbrev received : Response
  received = record {
    request_id = request_id;
    status_code = r.status_code;
    headers = r.header;
    body = body;
    error = [];
    timestamp = now;
    port = 0;
    client_id = [];
    protocol = r.proto;
    content_type = get r.header (codes "Content-Type");
  }

  added :
      (k : Text)
      → IsMap r.header
      → IsCanonical r.header
      → values k (add_headers [] r.header) ≡ values k r.header
  added k h c =
      values-add_headers k [] r.header
      ∙ ap (λ l. l ++ collected k r.header) (values-nil k)
      ∙ collected-values k r.header h c

  values-response_headers :
      (k : Text)
      → IsMap r.header
      → IsCanonical r.header
      → values k (response_headers received []) ≡ kept_values r body k
  unfolding response_headers
  values-response_headers k h c = ground (
    arith,
    values-set k (with_content_type (add_headers [] r.header) received.content_type)
        (codes "Content-Length") (decimal (length body)),
    canonical_length,
    get_content_type r.header,
    with_first_value k (add_headers [] r.header) (values (codes "Content-Type") r.header)
        (added (codes "Content-Type") h c),
    added k h c,
    text_beq_iff (codes "Content-Type") k,
  )

abbrev sent_with : Header → ℕ → List ℕ → ResponseWriter
sent_with headers code body = record {
  headers = headers;
  informational = [];
  status = some code;
  body = body;
}

write_header-new :
    (headers : Header) (code : ℕ)
    → 200 ≤ code
    → code ≤ 999
    → write_header (record new_writer { headers = headers }) code
      ≡ returns (sent_with headers code [])
unfolding write_header new_writer
write_header-new headers code low high = ground arith

write_body-allowed :
    (headers : Header) (code : ℕ) (body : List ℕ)
    → (body ≡ []) ⊎ (body_allowed code ≡ true)
    → write_body true body (sent_with headers code []) ≡ (ok tt, sent_with headers code body)
unfolding write_body write
write_body-allowed headers code [] h = refl
write_body-allowed headers code (b ∷ body) (inl e) = cc
write_body-allowed headers code (b ∷ body) (inr e) = rw e refl

-- A received response whose headers are a map of canonical keys, whose body can be read, and whose
-- status is final and allows its body, becomes an internal response; that one, written to a new
-- writer on a connection that does not fail, has the status and the body of the first, and its
-- headers but for two: one content type, the first, if it is not empty, and the body's length.
pub tcp_to_http_response-http_response_to_tcp :
    (r : HttpResponse) (body : List ℕ) (request_id : Text) (now : ℕ)
    → r.body ≡ some body
    → IsMap r.header
    → IsCanonical r.header
    → 200 ≤ r.status_code
    → r.status_code ≤ 999
    → (body ≡ []) ⊎ (body_allowed r.status_code ≡ true)
    → (t : Response) × (w : ResponseWriter) × (http_response_to_tcp r request_id now ≡ ok t)
      × (tcp_to_http_response true t new_writer ≡ returns (ok tt, w))
      × Keeps r body w
unfolding http_response_to_tcp tcp_to_http_response write_header new_writer set insert
tcp_to_http_response-http_response_to_tcp r body request_id now e h c low high allowed =
    let t = received r body request_id now in
    (
      t,
      sent_with (response_headers t []) r.status_code body,
      rw (e, http_response_to_tcp) refl,
      rw
          (
            write_header-new (response_headers t []) r.status_code low high,
            write_body-allowed (response_headers t []) r.status_code body allowed,
          )
          refl,
      record {
        status = refl;
        no_informational = refl;
        body = refl;
        headers = λ k. values-response_headers r body request_id now k h c;
      },
    )

-- A new writer panics exactly at a status that does not have three digits.
tcp_to_http_response_panics_iff :
    (sends : Bool) (t : Response)
    → (tcp_to_http_response sends t new_writer ≡ panics)
      ↔ ((t.status_code < 100) ⊎ (999 < t.status_code))
unfolding tcp_to_http_response write_header new_writer
tcp_to_http_response_panics_iff sends t = ground arith
