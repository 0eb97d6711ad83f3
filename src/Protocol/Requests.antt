-- ===== src/Protocol/Requests.antt =====
-- What a request keeps through pkg/protocol/translator.go.
use attachcloudip.Common.{
  ℕ, ◌≡◌, ◌≢◌, refl, ap, sym, ◌∙◌, List, [], ◌∷◌, ◌++◌, append_assoc, true, false, if◌then◌else◌,
  Option, none, some, ◌==◌, nat_eq, length, ok, Option-cases, inl, inr, arith,
}
use attachcloudip.Common.Map.{Map, lookup, insert, lookup-insert}
use attachcloudip.Common.Text.{Text, text_eq, text_beq_iff, codes}
use attachcloudip.Protocol.Headers.{is_token, is_token_char}
use attachcloudip.Protocol.{
  Request, RequestType, HttpRequest, copy_headers, first_values, http_to_tcp_request, pair,
  add_params, request_url, tcp_to_http_request, Url, request_method, make_request, new_request,
  with_headers,
}

-- An association list that stands for a Go map.
abbrev pub IsMap : Map Text (List Text) → Type 0
IsMap [] = Unit
IsMap ((key, values) ∷ rest) = (lookup key rest ≡ none) × IsMap rest

abbrev or_else : Option (List Text) → Option (List Text) → Option (List Text)
or_else none o = o
or_else (some v) o = some v

lookup-copy_headers :
    (acc m : Map Text (List Text)) (k : Text)
    → IsMap m
    → lookup k (copy_headers acc m) ≡ or_else (lookup k m) (lookup k acc)
unfolding copy_headers lookup
lookup-copy_headers acc [] k h = refl
lookup-copy_headers acc ((j, v) ∷ rest) k h = elim (Option-cases (lookup k rest)) [
  | inl missing ↦
      ground
        (arith, missing, lookup-copy_headers (insert j v acc) rest k h.1, lookup-insert j k v acc)
  | inr (u, found) ↦
      ground (arith, found, lookup-copy_headers (insert j v acc) rest k h.1, text_beq_iff j k, h.0)
]

or_else-none : (o : Option (List Text)) → or_else o none ≡ o
or_else-none none = refl
or_else-none (some v) = refl

abbrev translated : HttpRequest → Text → ℕ → List ℕ → Request
translated r client_id now body = record {
  id = [];
  type = RequestType.http;
  path = r.path;
  method = r.method;
  headers = copy_headers [] r.headers;
  body = body;
  timestamp = now;
  query_params = first_values [] r.query;
  host = r.host;
  protocol = r.proto;
  client_id = client_id;
}

-- The second request has the first one's method, with GET for none, its body, headers and host, and
-- the path and the query that its URL is parsed to.
pub record Agrees (r : HttpRequest) (u : Url) (q : HttpRequest) : Type 0 where
  pub method : q.method ≡ (if length r.method == 0 then codes "GET" else r.method)
  pub body : q.body ≡ r.body
  pub headers : (k : Text) → lookup k q.headers ≡ lookup k r.headers
  pub host : q.host ≡ r.host
  pub path : q.path ≡ u.path
  pub query : q.query ≡ u.query

request_method-token :
    (method : Text) → is_token method ≡ true → is_token (request_method method) ≡ true
unfolding request_method is_token is_token_char
request_method-token [] h = refl
request_method-token (c ∷ method) h = h

request_method-get :
    (method : Text) → request_method method ≡ (if length method == 0 then codes "GET" else method)
unfolding request_method
request_method-get [] = refl
request_method-get (c ∷ method) = ground arith

-- A request whose headers are a map, whose host is not empty, whose method is a token or empty and
-- whose body can be read becomes an internal request. If its URL, as it is written there, can be
-- parsed, the translation back has the method of the first, with GET for none, its body, headers and
-- host, and the path and the query of the URL.
pub tcp_to_http_request-http_to_tcp_request :
    (parse : Text → Option Url) (r : HttpRequest) (u : Url) (body : List ℕ) (client_id : Text)
    (now : ℕ)
    → IsMap r.headers
    → r.body ≡ some body
    → length r.host ≢ 0
    → is_token r.method ≡ true
    → parse (request_url r.path (first_values [] r.query)) ≡ some u
    → (t : Request) × (q : HttpRequest) × (http_to_tcp_request r client_id now ≡ ok t)
      × (tcp_to_http_request parse t ≡ ok q)
      × Agrees r u q
unfolding http_to_tcp_request tcp_to_http_request new_request make_request with_headers lookup
tcp_to_http_request-http_to_tcp_request parse r u body client_id now h e n m f = (
  translated r client_id now body,
  record {
    method = request_method r.method;
    path = u.path;
    query = u.query;
    headers = copy_headers [] r.headers;
    body = some body;
    host = r.host;
    proto = codes "HTTP/1.1";
  },
  rw (e, http_to_tcp_request) refl,
  rw (request_method-token r.method m, f, not_empty) refl,
  record {
    method = request_method-get r.method;
    body = sym e;
    headers = λ k. lookup-copy_headers [] r.headers k h ∙ or_else-none (lookup k r.headers);
    host = refl;
    path = refl;
    query = refl;
  },
)
  where
    not_empty : (length r.host == 0) ≡ false
    not_empty = ground (arith, n)

-- The URL does not escape what it writes: a value with an ampersand, a name and an equals sign in it
-- gives the URL of two parameters.
request_url-collides :
    (path key value key' value' : Text)
    → request_url path ((key, value ++ (b'&' ∷ pair key' value')) ∷ [])
      ≡ request_url path ((key, value) ∷ (key', value') ∷ [])
unfolding request_url add_params pair
request_url-collides path key value key' value' = sym (
    append_assoc path (b'?' ∷ pair key value) (b'&' ∷ pair key' value')
    ∙ ap (λ t. path ++ (b'?' ∷ t)) (append_assoc key (b'=' ∷ value) (b'&' ∷ pair key' value')))
