-- ===== src/Service/Tunnel/Nested.antt =====
-- A tunnel service with clients at /a and at /a/b.
use attachcloudip.Common.{refl, [], ◌∷◌, none, nat_eq, arith, contains}
use attachcloudip.Common.Map.{lookup, lookup_or, insert}
use attachcloudip.Common.Text.{Text, codes, text_eq, text_beq}
use attachcloudip.Strings.{trim_right, has_prefix}
use attachcloudip.PathIndex.{ids_at, attach}
use attachcloudip.Service.Paths.{normalize_path, is_path_match}
use attachcloudip.Service.Types.{StreamRequest, ClientInfo, StreamRequestType}
use attachcloudip.Service.Tunnel.{
  TunnelService, new_client, remove_client, new_tunnel_service, find_matching_client, first_client,
  match_patterns,
}
use attachcloudip.Service.Tunnel.Invariant.{Inv, new_tunnel_service-Inv}
use attachcloudip.Service.Tunnel.Registration.{client_at, with_client, committed, committed-Inv}
use attachcloudip.Service.Tunnel.Matching.{Serves, Visits}

abbrev request : Text → StreamRequest
request id = record {
  type = StreamRequestType.http_request;
  request_id = id;
  request = none;
  protocol = codes "http";
}

abbrev start : TunnelService
start = new_tunnel_service (8001 ∷ 8002 ∷ [])

-- Its line names what a proof by evaluation sees through.
unfoldable pub nested : TunnelService
unfolding find_matching_client is_path_match first_client match_patterns ids_at lookup_or committed
    with_client attach new_tunnel_service remove_client lookup insert normalize_path trim_right
    has_prefix client_at new_client contains text_beq
nested =
    committed (committed start (codes "s1") 5 (request (codes "c1")) (codes "/a") 8001 (8002 ∷ []))
      (codes "s2") 6 (request (codes "c2")) (codes "/a/b") 8002 []

pub nested-Inv : Inv nested
unfolding nested
nested-Inv = committed-Inv _ (codes "s2") 6 (request (codes "c2")) (codes "/a/b") 8002 [] (
    committed-Inv start (codes "s1") 5 (request (codes "c1")) (codes "/a") 8001 (8002 ∷ [])
      (new_tunnel_service-Inv (8001 ∷ 8002 ∷ [])))

abbrev pub outer : ClientInfo
outer = client_at (codes "c1") (codes "s1") 5 (codes "http") 8001 (codes "/a")

abbrev pub inner : ClientInfo
inner = client_at (codes "c2") (codes "s2") 6 (codes "http") 8002 (codes "/a/b")

pub inner-Serves : Serves nested (codes "/a/b") inner
unfolding nested
inner-Serves = record { id = codes "c2"; stored = refl; at = refl }

pub both_visited : Visits (codes "/a" ∷ codes "/a/b" ∷ []) nested.path_clients
unfolding nested
both_visited p h = ground (arith, h)
