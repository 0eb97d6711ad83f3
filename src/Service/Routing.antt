-- ===== src/Service/Routing.antt =====
-- The parts of pkg/service/tunnel_service.go together: a client is found for a path, is sent the
-- request, and its response ends the request.

use attachcloudip.Common.{
  ap, ◌∙◌, Result, ℕ, ◌≡◌, ◌≢◌, List, none, some, true, ok, returns, length, arith, nat_eq,
}
use attachcloudip.Common.Map.{lookup}
use attachcloudip.Common.Text.{Text, text_eq, text_beq_iff}
use attachcloudip.Service.Paths.{normalize_path, is_path_match}
use attachcloudip.Service.Types.{StreamRequest, ClientInfo}
use attachcloudip.Service.Tunnel.{TunnelService, find_matching_client}
use attachcloudip.Service.Tunnel.Invariant.{Inv}
use attachcloudip.Service.Tunnel.Matching.{Serves, Visits}
use attachcloudip.Service.Tunnel.Search.{find_matching_client_sound, find_matching_client_complete}
use attachcloudip.Service.Waiters.{
  Waiters, Error, start_request, finish_request, answered, handle_http_response,
}
use attachcloudip.Service.Waiters.Answers.{EndsWith, response_for-EndsWith, request-answered}

-- A service whose maps agree, with a client whose path is a prefix of the request's path, and any
-- order that visits all paths: a client is found that is stored under its ID, so that a request to it
-- with a new waiter, whose channel is empty, and an ID that is not empty is sent and waits. A message
-- with this ID is accepted unless it panics, for want of an HTTP request in a response; the request
-- ends with no error if the message is a response, and else with the error that it is not; then nobody
-- waits under the ID.
pub routed-answered :
    (s : TunnelService) (w : Waiters) (request_path path : Text) (order : List Text)
    (client : ClientInfo) (waiter : ℕ) (req : StreamRequest) (result : Result Error (Unit {0}))
    → Inv s
    → Visits order s.path_clients
    → Serves s path client
    → is_path_match path (normalize_path request_path) ≡ true
    → lookup waiter w.responses ≡ none
    → length req.request_id ≢ 0
    → EndsWith req.type req.request result
    → (found : ClientInfo) × (find_matching_client s request_path order ≡ ok found)
      × (lookup found.id s.clients ≡ some found)
      × ((w1 : Waiters) × (w2 : Waiters) × (w3 : Waiters) × (start_request s w found.id
              req.request_id waiter
            ≡ (ok tt, w1))
          × (handle_http_response w1 req ≡ returns (ok tt, w2))
          × (finish_request w2 req.request_id waiter answered ≡ some (result, w3))
          × (lookup req.request_id w3.waiters ≡ none))
routed-answered s w request_path path order client waiter req result v visits serves match fresh n
      e =
    let (found, is_found) =
      find_matching_client_complete s request_path order path client v visits serves match in
    let (at, its, _) = find_matching_client_sound s request_path order found v is_found in
    let stored : lookup found.id s.clients ≡ some found =
      rw ((v.stored its.id found its.stored).named) its.stored in
    let (response, makes, says) =
      response_for-EndsWith req.type req.request_id req.protocol req.request result e in
    let (w1, w2, w3, starts, answers, _, ends, _, gone) =
      request-answered s w found.id found waiter req response stored fresh n makes in
    (
      found,
      is_found,
      stored,
      (
        w1,
        w2,
        w3,
        starts,
        answers,
        ends ∙ ap (λ r. some (r, w3)) says,
        ground (arith, gone req.request_id, text_beq_iff req.request_id req.request_id),
      ),
    )
