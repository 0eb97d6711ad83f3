-- ===== src/Service/Waiters/Answers.antt =====
-- A request of pkg/service/tunnel_service.go and the response to it.
use attachcloudip.Common.{
  ℕ, ◌≡◌, ◌≢◌, refl, ap, sym, ◌∙◌, false, none, some, Option, Result, ◌==◌, if◌then◌else◌, nat_eq,
  nat_beq_iff, length, arith, returns, ok, err,
}
use attachcloudip.Common.Map.{lookup, insert, delete, lookup-insert, lookup-delete}
use attachcloudip.Common.Text.{Text, text_eq, text_beq_iff, codes}
use attachcloudip.Service.Types.{
  HttpRequest, StreamRequest, StreamRequestType, StreamResponse, ClientInfo,
}
use attachcloudip.Service.Tunnel.{TunnelService, send_to_client}
use attachcloudip.Service.Waiters.{
  Waiters, Error, client_error, empty_request_id, no_waiter_found, response_channel_full,
  store_response_waiter, delete_response_waiter, start_request, finish_request, answered, result_of,
  response_for, deliver, handle_http_response,
}

-- What the second message can find, and what comes of it.
module _ (w : Waiters) (req : StreamRequest) where
  handle_empty :
      length req.request_id ≡ 0 → handle_http_response w req ≡ returns (err empty_request_id, w)
  unfolding handle_http_response
  handle_empty e = ground (arith, e)

  handle_waiting :
      (waiter : ℕ) (response : StreamResponse)
      → length req.request_id ≢ 0
      → lookup req.request_id w.waiters ≡ some waiter
      → response_for req ≡ returns response
      → handle_http_response w req ≡ returns (deliver w req.request_id waiter response)
  unfolding handle_http_response
  handle_waiting waiter response n e f = rw (nonzero, handle_http_response, e, f) refl
    where
      nonzero : (length req.request_id == 0) ≡ false
      nonzero = ground (arith, n)

deliver_empty :
    (w : Waiters) (id : Text) (waiter : ℕ) (response : StreamResponse)
    → lookup waiter w.responses ≡ none
    → deliver w id waiter response
      ≡ (ok tt, record w { responses = insert waiter response w.responses })
unfolding deliver
deliver_empty w id waiter response e = rw (e, deliver) refl

start_sent :
    (s : TunnelService) (w : Waiters) (client_id id : Text) (waiter : ℕ) (client : ClientInfo)
    → lookup client_id s.clients ≡ some client
    → start_request s w client_id id waiter ≡ (ok tt, store_response_waiter w id waiter)
unfolding start_request store_response_waiter send_to_client
start_sent s w client_id id waiter client e = rw (e, start_request, send_to_client) refl

finish_answered :
    (w : Waiters) (id : Text) (waiter : ℕ) (response : StreamResponse)
    → lookup waiter w.responses ≡ some response
    → finish_request w id waiter answered
      ≡ some (
        result_of response,
        record { waiters = delete id w.waiters; responses = delete waiter w.responses },
      )
unfolding finish_request delete_response_waiter
finish_answered w id waiter response e = rw (e, finish_request) refl

deliver_full :
    (w : Waiters) (id : Text) (waiter : ℕ) (response full : StreamResponse)
    → lookup waiter w.responses ≡ some full
    → deliver w id waiter response ≡ (err (response_channel_full id), w)
unfolding deliver
deliver_full w id waiter response full e = rw (e, deliver) refl

handle_missing :
    (w : Waiters) (req : StreamRequest)
    → length req.request_id ≢ 0
    → lookup req.request_id w.waiters ≡ none
    → handle_http_response w req ≡ returns (err (no_waiter_found req.request_id), w)
unfolding handle_http_response
handle_missing w req n e = rw (nonzero, handle_http_response, e) refl
  where
    nonzero : (length req.request_id == 0) ≡ false
    nonzero = ground (arith, n)

-- How a message of the client, by its type and its HTTP request, ends the request that it answers. One
-- that has the type of a response and no HTTP request panics.
abbrev pub EndsWith : StreamRequestType → Option HttpRequest → Result Error (Unit {0}) → Type 0
EndsWith StreamRequestType.http_response none result = ⊥
EndsWith StreamRequestType.http_response (some http) result = result ≡ ok tt
EndsWith _ o result = result ≡ err (client_error (codes "Unexpected stream request type"))

abbrev pub Makes : StreamRequest → Result Error (Unit {0}) → Type 0
Makes req result =
    (response : StreamResponse) × (response_for req ≡ returns response)
    × (result_of response ≡ result)

pub response_for-EndsWith :
    (t : StreamRequestType) (id protocol : Text) (o : Option HttpRequest)
    (result : Result Error (Unit {0}))
    → EndsWith t o result
    → Makes (record { type = t; request_id = id; request = o; protocol = protocol }) result
unfolding response_for result_of
response_for-EndsWith StreamRequestType.http_response id protocol none result e = absurd e
response_for-EndsWith StreamRequestType.http_response id protocol (some http) result e =
    (_, refl, sym e)
response_for-EndsWith StreamRequestType.http_request id protocol o result e = (_, refl, sym e)
response_for-EndsWith StreamRequestType.heartbeat id protocol o result e = (_, refl, sym e)
response_for-EndsWith StreamRequestType.path_update id protocol o result e = (_, refl, sym e)

-- A request to a client that is there, the client's message with the request's ID, and the request
-- again: the message is accepted, the request ends as the message says, and its waiter is gone, with
-- no other changed. The same message once more is refused, before the request has taken the first
-- because the channel is full, and after it because nobody waits.
pub request-answered :
    (s : TunnelService) (w : Waiters) (client_id : Text) (client : ClientInfo) (waiter : ℕ)
    (req : StreamRequest) (response : StreamResponse)
    → lookup client_id s.clients ≡ some client
    → lookup waiter w.responses ≡ none
    → length req.request_id ≢ 0
    → response_for req ≡ returns response
    → (w1 : Waiters) × (w2 : Waiters) × (w3 : Waiters) × (start_request s w client_id req.request_id
          waiter
        ≡ (ok tt, w1))
      × (handle_http_response w1 req ≡ returns (ok tt, w2))
      × (handle_http_response w2 req ≡ returns (err (response_channel_full req.request_id), w2))
      × (finish_request w2 req.request_id waiter answered ≡ some (result_of response, w3))
      × (handle_http_response w3 req ≡ returns (err (no_waiter_found req.request_id), w3))
      × ((i : Text)
          → lookup i w3.waiters ≡ (if req.request_id == i then none else lookup i w.waiters))
unfolding store_response_waiter
request-answered s w client_id client waiter req response here fresh n e =
    let id = req.request_id in
    let w1 = store_response_waiter w id waiter in
    let w2 : Waiters = record w1 { responses = insert waiter response w.responses } in
    let w3 : Waiters = record {
      waiters = delete id w1.waiters;
      responses = delete waiter w2.responses;
    } in
    let stored : lookup id w1.waiters ≡ some waiter =
      ground (arith, lookup-insert id id waiter w.waiters, text_beq_iff id id) in
    let full : lookup waiter w2.responses ≡ some response =
      ground (arith, lookup-insert waiter waiter response w.responses, nat_beq_iff waiter waiter) in
    let gone : lookup id w3.waiters ≡ none =
      ground (arith, lookup-delete id id w1.waiters, text_beq_iff id id) in
    (
      w1,
      w2,
      w3,
      start_sent s w client_id id waiter client here,
      handle_waiting w1 req waiter response n stored e
          ∙ ap returns (deliver_empty w1 id waiter response fresh),
      handle_waiting w2 req waiter response n stored e
          ∙ ap returns (deliver_full w2 id waiter response response full),
      finish_answered w2 id waiter response full,
      handle_missing w3 req n gone,
      λ i. ground (
        arith,
        lookup-delete id i w1.waiters,
        lookup-insert id i waiter w.waiters,
        text_beq_iff id i,
      ),
    )
