-- ===== src/Service/Waiters.antt =====
-- pkg/service/tunnel_service.go: requests that wait for the response of their client. A waiter is an
-- address; its channel has room for one response, so `responses` has the channels that are full.
pub mod System
pub mod Ownership
pub mod Owners
pub mod Answers
mod Examples
use attachcloudip.Common.{
  ℕ, List, [], ◌∷◌, Bool, Option, none, some, if◌then◌else◌, ◌==◌, ◌>>=◌, nat_eq, length, Outcome,
  returns, panics, Result, ok, err,
}
use attachcloudip.Common.Map.{Map, lookup, insert, delete}
use attachcloudip.Common.Text.{Text, text_eq, codes}
use attachcloudip.Service.Types.{
  HttpRequest, HttpResponse, StreamRequest, StreamRequestType, StreamResponse, StreamResponseType,
}
use attachcloudip.Service.Tunnel.{TunnelService, send_to_client}

pub record Waiters : Type 0 where
  pub waiters : Map Text ℕ
  pub responses : Map ℕ StreamResponse

pub data Error : Type 0 where
  request_cancelled request_timeout empty_request_id : Error
  failed_to_send client_error no_waiter_found response_channel_full : Text → Error

unfoldable pub store_response_waiter : Waiters → Text → ℕ → Waiters
store_response_waiter w request_id waiter = record w {
  waiters = insert request_id waiter w.waiters;
}

unfoldable pub delete_response_waiter : Waiters → Text → Waiters
delete_response_waiter w request_id = record w { waiters = delete request_id w.waiters }

unfoldable pub get_response_waiter : Waiters → Text → Option ℕ
get_response_waiter w request_id = lookup request_id w.waiters

-- `handleHTTPRequest` up to its `select`, with a new waiter; the request is only logged.
unfoldable pub start_request :
    TunnelService → Waiters → Text → Text → ℕ → Result Error (Unit {0}) × Waiters
unfolding store_response_waiter delete_response_waiter
start_request s w client_id request_id waiter =
    let stored = store_response_waiter w request_id waiter in
    elim (send_to_client s client_id) [
      | ok sent ↦ (ok tt, stored)
      | err e ↦ (err (failed_to_send client_id), delete_response_waiter stored request_id)
    ]

-- The cases of the `select`.
pub data Wake : Type 0 where
  answered cancelled timed_out : Wake

pub result_of : StreamResponse → Result Error (Unit {0})
result_of response = elim response.type [
  | StreamResponseType.error ↦ err (client_error response.message)
  | _ ↦ ok tt
]

-- The rest of `handleHTTPRequest`; `none` where the case of the `select` is not ready.
unfoldable pub finish_request :
    Waiters → Text → ℕ → Wake → Option (Result Error (Unit {0}) × Waiters)
unfolding delete_response_waiter
finish_request w request_id waiter answered = elim (lookup waiter w.responses) [
  | none ↦ none
  | some response ↦
      let taken : Waiters = record w { responses = delete waiter w.responses } in
      some (result_of response, delete_response_waiter taken request_id)
]
finish_request w request_id waiter cancelled =
    some (err request_cancelled, delete_response_waiter w request_id)
finish_request w request_id waiter timed_out =
    some (err request_timeout, delete_response_waiter w request_id)

-- The response that the client's message makes. `req.HttpRequest.Headers` panics on nil.
unfoldable pub response_for : StreamRequest → Outcome StreamResponse
response_for req = elim req.type [
  | StreamRequestType.http_response ↦ elim req.request [
    | none ↦ panics
    | some http ↦ returns (record {
      type = StreamResponseType.http_response;
      request_id = req.request_id;
      request = none;
      response = some (record { status_code = 200; headers = http.headers; body = http.body });
      message = [];
      port = 0;
    })
  ]
  | _ ↦ returns (record {
    type = StreamResponseType.error;
    request_id = req.request_id;
    request = none;
    response = none;
    message = codes "Unexpected stream request type";
    port = 0;
  })
]

-- The send on the waiter's channel.
unfoldable pub deliver : Waiters → Text → ℕ → StreamResponse → Result Error (Unit {0}) × Waiters
deliver w request_id waiter response = elim (lookup waiter w.responses) [
  | some full ↦ (err (response_channel_full request_id), w)
  | none ↦ (ok tt, record w { responses = insert waiter response w.responses })
]

unfoldable pub handle_http_response :
    Waiters → StreamRequest → Outcome (Result Error (Unit {0}) × Waiters)
unfolding response_for deliver
handle_http_response w req =
    if length req.request_id == 0
    then returns (err empty_request_id, w)
    else elim (lookup req.request_id w.waiters) [
      | none ↦ returns (err (no_waiter_found req.request_id), w)
      | some waiter ↦ do
        response ← response_for req
        returns (deliver w req.request_id waiter response)
    ]
