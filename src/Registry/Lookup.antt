-- ===== src/Registry/Lookup.antt =====
-- `FindClientForPath`: the registrations of a path.
use attachcloudip.Common.{
  ◌<◌, ◌≡◌, List, [], ◌∷◌, false, some, ◌==◌, nat_eq, returns, Result, ok, err, count, length, All,
  In, arith, Option-cases, beq_self, beq_cases, inl, inr,
}
use attachcloudip.Common.Map.{lookup, lookup_or}
use attachcloudip.Common.Text.{Text, text_eq, text_beq_iff}
use attachcloudip.PathIndex.{PathIndex, ids_at}
use attachcloudip.Registry.{
  Registry, ClientRegistration, Error, no_clients_found, registrations, find_in,
  find_client_for_path,
}
use attachcloudip.Registry.Agree.{Clients, Agree, paths_of_stored}
use attachcloudip.Registry.Locking.{Ready}

-- The client is registered and lists the path.
abbrev pub Lists : Clients → Text → ClientRegistration → Type 0
Lists clients path client = (lookup client.id clients ≡ some client) × (0 < count path client.paths)

pub head-count : (id : Text) (ids : List Text) → 0 < count id (id ∷ ids)
unfolding count
head-count id ids = rw (beq_self id) (omega arith)

pub tail-count : (id j : Text) (ids : List Text) → 0 < count id ids → 0 < count id (j ∷ ids)
unfolding count
tail-count id j ids h = ground arith

module _ (clients : Clients) (index : PathIndex) (a : Agree clients index) (path : Text) where
  Lists-of_id :
      (id : Text) (client : ClientRegistration)
      → lookup id clients ≡ some client
      → 0 < count id (ids_at index path)
      → Lists clients path client
  Lists-of_id id client e h = (
    ground (arith, a.named id client e, e),
    ground (arith, a.indexed id path, paths_of_stored clients id client e),
  )

  registrations_sound :
      (ids : List Text)
      → ((id : Text) → 0 < count id ids → 0 < count id (ids_at index path))
      → All (Lists clients path) (registrations clients ids)
  unfolding registrations
  registrations_sound [] h = tt
  registrations_sound (id ∷ ids) h =
      let rest = registrations_sound ids (λ j k. h j (tail-count j id ids k)) in
      elim (Option-cases (lookup id clients)) [
        | inl missing ↦ rw (missing, registrations) rest
        | inr (c, e) ↦ rw (e, registrations) ((Lists-of_id id c e (h id (head-count id ids)), rest))
      ]

registrations_complete :
    (clients : Clients) (ids : List Text) (id : Text) (client : ClientRegistration)
    → lookup id clients ≡ some client
    → 0 < count id ids
    → In client (registrations clients ids)
unfolding registrations count
registrations_complete clients [] id client e h = absurd (omega arith)
registrations_complete clients (j ∷ ids) id client e h = elim (Option-cases (lookup j clients)) [
  | inl missing ↦
      rw (missing, registrations)
        (registrations_complete clients ids id client e (ground (arith, text_beq_iff j id)))
  | inr (c, f) ↦
      rw (f, registrations)
        (elim (beq_cases j id) [
          | inl same ↦ inl (ground (arith, e, f, same))
          | inr (_, diff) ↦
              inr (registrations_complete clients ids id client e (ground (arith, diff)))
        ])
]

pub not_empty : (id : Text) (ids : List Text) → (length (id ∷ ids) == 0) ≡ false
not_empty id ids = ground arith

pub find_unlocked :
    (path : Text) (r : Registry)
    → r.mu ≡ false
    → find_client_for_path path r ≡ returns (find_in path r, r)
unfolding find_client_for_path
find_unlocked path r e = ground arith

-- What `FindClientForPath` answers: the registrations that list the path, all of them and no other,
-- or an error if there is none.
pub data Finds (clients : Clients) (path : Text)
    : Result Error (List ClientRegistration) → Type 0 where
  found :
      {cs : List ClientRegistration}
      → All (Lists clients path) cs
      → ((c : ClientRegistration) → Lists clients path c → In c cs)
      → Finds clients path (ok cs)
  missing :
      ((c : ClientRegistration) → ¬ Lists clients path c)
      → Finds clients path (err (no_clients_found path))

module _ (r : Registry) (a : Agree r.clients r.path_to_client_ids) (path : Text) where
  no_ids :
      ids_at r.path_to_client_ids path ≡ [] → (c : ClientRegistration) → ¬ Lists r.clients path c
  unfolding count
  no_ids e c (stored, listed) =
      absurd (ground (arith, a.indexed c.id path, paths_of_stored r.clients c.id c stored, e))

  found_ids :
      (ids : List Text)
      → ids_at r.path_to_client_ids path ≡ ids
      → Finds r.clients path (ok (registrations r.clients ids))
  found_ids ids e =
      found (registrations_sound r.clients r.path_to_client_ids a path ids (λ id h. rw e h))
        (λ c (stored, listed).
          registrations_complete r.clients ids c.id c stored
            (ground (arith, a.indexed c.id path, paths_of_stored r.clients c.id c stored, e)))

  find_in-Finds : Finds r.clients path (find_in path r)
  unfolding find_in ids_at lookup_or
  find_in-Finds = elim (Option-cases (lookup path r.path_to_client_ids)) [
    | inl none_there ↦
        rw (none_there, find_in) (missing (no_ids (rw (none_there, ids_at, lookup_or))))
    | inr (ids, e) ↦ by_ids ids e
  ]
    where
      by_ids :
          (ids : List Text)
          → lookup path r.path_to_client_ids ≡ some ids
          → Finds r.clients path (find_in path r)
      by_ids [] e = rw (e, find_in) (missing (no_ids (rw (e, ids_at, lookup_or))))
      by_ids (id ∷ ids) e =
          rw (e, find_in) (rw (not_empty id ids) (found_ids (id ∷ ids) (rw (e, ids_at, lookup_or))))

-- While the maps agree, `FindClientForPath` finds exactly the clients that list the path, and fails
-- exactly if there is none.
pub find_client_for_path-Finds :
    (path : Text) (r : Registry)
    → Ready r
    → (answer : Result Error (List ClientRegistration)) × (find_client_for_path path r
        ≡ returns (answer, r))
      × Finds r.clients path answer
find_client_for_path-Finds path r v =
    (find_in path r, find_unlocked path r v.free, find_in-Finds r v.agree path)
