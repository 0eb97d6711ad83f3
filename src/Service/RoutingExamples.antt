-- ===== src/Service/RoutingExamples.antt =====
-- A request that is routed to one of two clients.
use attachcloudip.Common.{◌≡◌, refl, [], ◌∷◌, none, some, true, nat_eq, arith, returns, ok}
use attachcloudip.Common.Map.{lookup}
use attachcloudip.Common.Text.{codes, text_eq}
use attachcloudip.Service.Types.{ClientInfo, StreamRequest, StreamRequestType}
use attachcloudip.Service.Paths.{normalize_path, is_path_match}
use attachcloudip.Service.Tunnel.{find_matching_client}
use attachcloudip.Service.Tunnel.Nested.{nested, nested-Inv, inner, inner-Serves, both_visited}
use attachcloudip.Service.Waiters.{
  Waiters, answered, start_request, handle_http_response, finish_request,
}
use attachcloudip.Service.Routing.{routed-answered}

abbrev answer : StreamRequest
answer = record {
  type = StreamRequestType.http_response;
  request_id = codes "r1";
  request = some (record { method = []; path = []; headers = []; body = 104 ∷ 105 ∷ [] });
  protocol = [];
}

abbrev nobody : Waiters
nobody = record { waiters = []; responses = [] }

channel_empty : lookup 0 nobody.responses ≡ none
unfolding lookup
channel_empty = refl

inner_matches : is_path_match (codes "/a/b") (normalize_path (codes "a/b/c")) ≡ true
unfolding nested
inner_matches = refl

routed-answered_example :
    (found : ClientInfo) × (find_matching_client nested
        (codes "a/b/c")
        (codes "/a" ∷ codes "/a/b" ∷ [])
      ≡ ok found)
    × (lookup found.id nested.clients ≡ some found)
    × ((w1 : Waiters) × (w2 : Waiters) × (w3 : Waiters) × (start_request nested nobody found.id
            (codes "r1")
            0
          ≡ (ok tt, w1))
        × (handle_http_response w1 answer ≡ returns (ok tt, w2))
        × (finish_request w2 (codes "r1") 0 answered ≡ some (ok tt, w3))
        × (lookup (codes "r1") w3.waiters ≡ none))
routed-answered_example =
    routed-answered nested nobody (codes "a/b/c") (codes "/a/b") (codes "/a" ∷ codes "/a/b" ∷ [])
      inner 0 answer (ok tt) nested-Inv both_visited inner-Serves inner_matches channel_empty
      (ground arith) refl
