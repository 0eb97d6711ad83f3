-- ===== src/Service/Tunnel/SearchExamples.antt =====
-- The search for a client, with clients at /a and at /a/b.
use attachcloudip.Common.{◌≡◌, refl, true, [], ◌∷◌, ok, nat_eq, arith, count}
use attachcloudip.Common.Text.{Text, codes, text_eq, text_beq_iff}
use attachcloudip.PathIndex.{ids_at}
use attachcloudip.Service.Paths.{normalize_path, is_path_match}
use attachcloudip.Service.Types.{ClientInfo}
use attachcloudip.Service.Tunnel.{find_matching_client}
use attachcloudip.Service.Tunnel.Matching.{Serves}
use attachcloudip.Service.Tunnel.Status.{
  VisitsOnce, listed_at, handle_status_request, handle_status_request-Agrees,
}
use attachcloudip.Service.Tunnel.Search.{find_matching_client_sound, find_matching_client_complete}
use attachcloudip.Service.Tunnel.Nested.{
  nested, nested-Inv, outer, inner, inner-Serves, both_visited,
}

outer-Serves : Serves nested (codes "/a") outer
unfolding nested
outer-Serves = record { id = codes "c1"; stored = refl; at = refl }

no_exact : ids_at nested.path_clients (normalize_path (codes "a/b/c")) ≡ []
unfolding nested
no_exact = refl

found_outer : find_matching_client nested (codes "a/x") (codes "/a/b" ∷ codes "/a" ∷ []) ≡ ok outer
unfolding nested
found_outer = refl

find_matching_client_sound_example :
    (path : Text) × Serves nested path outer
    × (is_path_match path (normalize_path (codes "a/x")) ≡ true)
find_matching_client_sound_example =
    find_matching_client_sound nested (codes "a/x") (codes "/a/b" ∷ codes "/a" ∷ []) outer
      nested-Inv found_outer

inner-match : is_path_match (codes "/a/b") (normalize_path (codes "a/b/c")) ≡ true
unfolding nested
inner-match = refl

find_matching_client_complete_example :
    (found : ClientInfo) × (find_matching_client nested
        (codes "a/b/c")
        (codes "/a" ∷ codes "/a/b" ∷ [])
      ≡ ok found)
find_matching_client_complete_example =
    find_matching_client_complete nested (codes "a/b/c") (codes "/a" ∷ codes "/a/b" ∷ [])
      (codes "/a/b") inner nested-Inv both_visited inner-Serves inner-match

nested_once : VisitsOnce (codes "c1" ∷ codes "c2" ∷ []) nested
unfolding nested count
nested_once id = ground (arith, text_beq_iff (codes "c1") id, text_beq_iff (codes "c2") id)

handle_status_request-Agrees_example :
    count
      (codes "c2")
      (ids_at (handle_status_request nested (codes "c1" ∷ codes "c2" ∷ [])).paths (codes "/a/b"))
    ≡ listed_at
        (codes "c2")
        (codes "/a/b")
        (handle_status_request nested (codes "c1" ∷ codes "c2" ∷ [])).clients
handle_status_request-Agrees_example =
    handle_status_request-Agrees nested (codes "c1" ∷ codes "c2" ∷ []) (codes "c2") (codes "/a/b")
      nested-Inv nested_once
