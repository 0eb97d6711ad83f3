-- ===== src/Registry/Examples.antt =====
-- The registry at single states.
use attachcloudip.Common.{
  ◌+◌, ◌-◌, ◌^◌, ◌≤◌, ◌<◌, ◌≡◌, ◌≢◌, refl, true, false, List, [], ◌∷◌, none, some, returns, blocks,
  Result, ok, if◌then◌else◌, ◌==◌, count, nat_eq, arith, contains,
}
use attachcloudip.Common.Map.{lookup, lookup_or, insert}
use attachcloudip.Common.Text.{Text, codes, text_eq, text_beq, text_beq_iff}
use attachcloudip.PathIndex.{ids_at, attach, attach_all}
use attachcloudip.Registry.{
  Registry, ClientRegistration, Error, client_type_http, client_type_tcp, new_client, new_registry,
  register_client, find_client_for_path, remove_client, cleanup_stale_clients,
}
use attachcloudip.Registry.Agree.{Agree-nil, Agree-attach, paths_of}
use attachcloudip.Registry.Locking.{Ready, register_client_tcp-blocks}
use attachcloudip.Registry.Calls.{registers, created, perform, Reach-returns}
use attachcloudip.Registry.Lookup.{Finds, find_client_for_path-Finds}
use attachcloudip.Registry.Removal.{remove_client-effect, remove_client-dangling}
use attachcloudip.Registry.Staleness.{is_late, unless_late, cleanup_stale_clients-effect}
use attachcloudip.Registry.Connections.{
  opened, closed, report_all, open_count, report_all-open_count,
}

register_client_tcp-blocks_example :
    register_client (codes "/db" ∷ []) client_type_tcp [] (codes "u1") 7 (new_registry 9000)
    ≡ blocks
register_client_tcp-blocks_example =
    register_client_tcp-blocks (codes "/db" ∷ []) [] (codes "u1") 7 (new_registry 9000)

none_yet : lookup (codes "u1") (new_registry 9000).clients ≡ none
unfolding new_registry lookup
none_yet = refl

Reach-returns_example :
    (r' : Registry) × (perform
        (registers (codes "/a" ∷ []) client_type_http [] (codes "u1") 7)
        (new_registry 9000)
      ≡ returns r')
    × Ready r'
Reach-returns_example =
    Reach-returns created (registers (codes "/a" ∷ []) client_type_http [] (codes "u1") 7)
      (refl, none_yet)

-- A client that lists its path twice.
abbrev doubled : ClientRegistration
doubled = new_client (codes "/a" ∷ codes "/a" ∷ []) client_type_http [] (codes "u1") 7 0

-- Its line names what a proof by evaluation sees through.
one_client : Registry
unfolding new_client insert attach_all attach lookup lookup_or ids_at paths_of count contains
    text_beq
one_client = record {
  mu = false;
  clients = insert doubled.id doubled [];
  path_to_client_ids = attach_all doubled.id [] doubled.paths;
  available_tcp_port = 9000;
}

one_client-Ready : Ready one_client
unfolding one_client
one_client-Ready = record { free = refl; agree = Agree-attach [] [] Agree-nil doubled refl }

find_client_for_path-Finds_example :
    (answer : Result Error (List ClientRegistration)) × (find_client_for_path
        (codes "/a")
        one_client
      ≡ returns (answer, one_client))
    × Finds one_client.clients (codes "/a") answer
find_client_for_path-Finds_example =
    find_client_for_path-Finds (codes "/a") one_client one_client-Ready

remove_client-effect_example :
    (r' : Registry) × (remove_client (codes "u1") one_client ≡ returns (tt, r'))
    × ((i : Text)
        → lookup i r'.clients ≡ (if codes "u1" == i then none else lookup i one_client.clients))
    × ((i p : Text)
        → count i (ids_at r'.path_to_client_ids p) ≡ (
            if codes "u1" == i
            then count p (paths_of one_client.clients (codes "u1")) - 1
            else count i (ids_at one_client.path_to_client_ids p)))
remove_client-effect_example = remove_client-effect one_client (codes "u1") one_client-Ready

listed_twice : 2 ≤ count (codes "/a") (paths_of one_client.clients (codes "u1"))
unfolding one_client
listed_twice = omega arith

only_one : (j : Text) → codes "u1" ≢ j → count (codes "/a") (paths_of one_client.clients j) ≡ 0
unfolding one_client
only_one j ne = ground (arith, text_beq_iff (codes "u1") j, ne)

remove_client-dangling_example :
    (r' : Registry) × (remove_client (codes "u1") one_client ≡ returns (tt, r'))
    × (0 < count (codes "u1") (ids_at r'.path_to_client_ids (codes "/a")))
    × (find_client_for_path (codes "/a") r' ≡ returns (ok [], r'))
remove_client-dangling_example =
    remove_client-dangling one_client (codes "u1") (codes "/a") one_client-Ready listed_twice
      only_one

visited : (i : Text) → lookup i one_client.clients ≢ none → contains (codes "u1" ∷ []) i ≡ true
unfolding one_client
visited i h = ground (arith, h)

cleanup_stale_clients-effect_example :
    (stale : List Text) × (r' : Registry) × (cleanup_stale_clients 10 20
        (codes "u1" ∷ [])
        one_client
      ≡ returns (stale, r'))
    × ((i : Text) → contains stale i ≡ is_late 10 20 (lookup i one_client.clients))
    × ((i : Text) → lookup i r'.clients ≡ unless_late 10 20 (lookup i one_client.clients))
    × Ready r'
cleanup_stale_clients-effect_example =
    cleanup_stale_clients-effect 10 20 (codes "u1" ∷ []) one_client one_client-Ready visited

counted_client : lookup (codes "u1") one_client.clients ≡ some doubled
unfolding one_client
counted_client = refl

few_events : doubled.active_tcp_connections + 3 < 2 ^ 63
unfolding new_client
few_events = omega arith

report_all-open_count_example :
    (r' : Registry) × (c' : ClientRegistration) × (report_all
        (codes "u1")
        (closed ∷ opened ∷ opened ∷ [])
        one_client
      ≡ returns r')
    × (lookup (codes "u1") r'.clients ≡ some c')
    × (c'.active_tcp_connections
        ≡ open_count doubled.active_tcp_connections (closed ∷ opened ∷ opened ∷ []))
report_all-open_count_example =
    report_all-open_count (codes "u1") (closed ∷ opened ∷ opened ∷ []) one_client doubled
      one_client-Ready.free counted_client few_events
