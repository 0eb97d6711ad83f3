-- ===== src/Registry/Removal.antt =====
-- `RemoveClient`, and what it leaves of a client that lists a path twice.
use attachcloudip.Common.{
  ◌-◌, ◌<◌, ◌≤◌, ◌≡◌, ◌≢◌, refl, ap, ◌∙◌, List, [], ◌∷◌, false, Option, none, some, if◌then◌else◌,
  ◌==◌, returns, ok, count, erase, count-erase, arith, beq_cases, inl, inr,
}
use attachcloudip.Common.Map.{lookup, lookup_or, map_values, delete, lookup-delete}
use attachcloudip.Common.Text.{Text, text_eq, text_beq_iff}
use attachcloudip.PathIndex.{ids_at}
use attachcloudip.Registry.{Registry, remove_client, registrations, find_in, find_client_for_path}
use attachcloudip.Registry.Lookup.{head-count, tail-count, find_unlocked, not_empty}
use attachcloudip.Registry.Agree.{Clients, paths_of, ids_at-map_values}
use attachcloudip.Registry.Locking.{Ready}

removed : Registry → Text → Registry
removed r id = record r {
  clients = delete id r.clients;
  path_to_client_ids = map_values (erase id) r.path_to_client_ids;
}

remove_client_lem :
    (r : Registry) (id : Text) → r.mu ≡ false → remove_client id r ≡ returns (tt, removed r id)
unfolding remove_client removed
remove_client_lem r id e = ground (arith, e)

removed-clients :
    (r : Registry) (id i : Text)
    → lookup i (removed r id).clients ≡ (if id == i then none else lookup i r.clients)
unfolding removed
removed-clients r id i = lookup-delete id i r.clients

removed-ids_at :
    (r : Registry) (id p : Text)
    → ids_at (removed r id).path_to_client_ids p ≡ erase id (ids_at r.path_to_client_ids p)
unfolding removed
removed-ids_at r id p = ids_at-map_values id r.path_to_client_ids p

count-removed :
    (r : Registry) (id i p : Text)
    → Ready r
    → count i (ids_at (removed r id).path_to_client_ids p) ≡ (
        if id == i
        then count p (paths_of r.clients id) - 1
        else count i (ids_at r.path_to_client_ids p))
count-removed r id i p v = ground (
  arith,
  removed-ids_at r id p,
  count-erase id i (ids_at r.path_to_client_ids p),
  v.agree.indexed i p,
  text_beq_iff id i,
)

-- `RemoveClient` returns; the client is gone and the others stay; its ID stands at each path once
-- less than the client listed the path, and the other IDs stand as before.
pub remove_client-effect :
    (r : Registry) (id : Text)
    → Ready r
    → (r' : Registry) × (remove_client id r ≡ returns (tt, r'))
      × ((i : Text) → lookup i r'.clients ≡ (if id == i then none else lookup i r.clients))
      × ((i p : Text)
          → count i (ids_at r'.path_to_client_ids p) ≡ (
              if id == i
              then count p (paths_of r.clients id) - 1
              else count i (ids_at r.path_to_client_ids p)))
remove_client-effect r id v = (
  removed r id,
  remove_client_lem r id v.free,
  removed-clients r id,
  λ i p. count-removed r id i p v,
)

registrations-nil :
    (clients : Clients) (ids : List Text)
    → ((i : Text) → 0 < count i ids → lookup i clients ≡ none)
    → registrations clients ids ≡ []
unfolding registrations
registrations-nil clients [] h = refl
registrations-nil clients (i ∷ ids) h =
    rw (h i (head-count i ids), registrations)
      (registrations-nil clients ids (λ j k. h j (tail-count j i ids k)))

-- The IDs that the removal leaves at a path that no other client lists are not registered.
left_over :
    (r : Registry) (id p i : Text)
    → Ready r
    → ((j : Text) → id ≢ j → count p (paths_of r.clients j) ≡ 0)
    → 0 < count i (ids_at (removed r id).path_to_client_ids p)
    → lookup i (removed r id).clients ≡ none
left_over r id p i v alone h = elim (beq_cases id i) [
  | inl same ↦ ground (arith, removed-clients r id i, text_beq_iff id i, same)
  | inr (ne, diff) ↦
      absurd (ground (arith, count-removed r id i p v, v.agree.indexed i p, alone i ne, diff))
]

removed-mu : (r : Registry) (id : Text) → (removed r id).mu ≡ r.mu
unfolding removed
removed-mu r id = refl

-- A slice of IDs that are not registered is answered with an empty list.
find_in_left_over :
    (r : Registry) (p id : Text)
    → 0 < count id (ids_at r.path_to_client_ids p)
    → ((i : Text) → 0 < count i (ids_at r.path_to_client_ids p) → lookup i r.clients ≡ none)
    → find_in p r ≡ ok []
unfolding find_in ids_at lookup_or count
find_in_left_over r p id h none_there = by_entry (lookup p r.path_to_client_ids) refl
  where
    by_ids : (ids : List Text) → lookup p r.path_to_client_ids ≡ some ids → find_in p r ≡ ok []
    by_ids [] e = absurd (ground (arith, e))
    by_ids (j ∷ ids) e =
        rw (e, find_in)
          (rw (not_empty j ids) (
            ap ok (
              registrations-nil r.clients (j ∷ ids)
                (λ i k. none_there i (rw (e, ids_at, lookup_or) k)))))

    by_entry : (o : Option (List Text)) → lookup p r.path_to_client_ids ≡ o → find_in p r ≡ ok []
    by_entry none e = absurd (ground (arith, e))
    by_entry (some ids) e = by_ids ids e

-- A client that lists a path twice is not removed from it: its ID stays in the slice, and if no
-- other client lists the path, `FindClientForPath` then answers with an empty list and no error.
pub remove_client-dangling :
    (r : Registry) (id p : Text)
    → Ready r
    → 2 ≤ count p (paths_of r.clients id)
    → ((j : Text) → id ≢ j → count p (paths_of r.clients j) ≡ 0)
    → (r' : Registry) × (remove_client id r ≡ returns (tt, r'))
      × (0 < count id (ids_at r'.path_to_client_ids p))
      × (find_client_for_path p r' ≡ returns (ok [], r'))
remove_client-dangling r id p v twice alone = (
  removed r id,
  remove_client_lem r id v.free,
  dangling,
  find_unlocked p (removed r id) (removed-mu r id ∙ v.free)
      ∙ ap (λ x. returns (x, removed r id))
          (find_in_left_over (removed r id) p id dangling (λ i h. left_over r id p i v alone h)),
)
  where
    dangling : 0 < count id (ids_at (removed r id).path_to_client_ids p)
    dangling = ground (arith, count-removed r id id p v, text_beq_iff id id)
