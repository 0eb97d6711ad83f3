-- ===== src/Service/Tunnel/Search.antt =====
-- `FindMatchingClient` in any order of the patterns.
use attachcloudip.Common.{
  ◌≡◌, ◌≢◌, refl, List, [], ◌∷◌, true, Option, none, some, contains, arith, ok, Option-cases,
  Bool-cases, inl, inr,
}
use attachcloudip.Common.Map.{lookup, lookup_or}
use attachcloudip.Common.Text.{Text, text_eq, text_beq_iff}
use attachcloudip.Strings.Laws.{has_prefix_self}
use attachcloudip.PathIndex.{PathIndex, ids_at}
use attachcloudip.Service.Paths.{normalize_path, is_path_match}
use attachcloudip.Service.Types.{ClientInfo}
use attachcloudip.Service.Tunnel.{
  TunnelService, first_client, match_pattern, match_patterns, find_matching_client,
}
use attachcloudip.Service.Tunnel.Invariant.{Inv}
use attachcloudip.Service.Tunnel.Matching.{
  Serves, Visits, first_client_sound, first_client_total, ids_at-Serves,
}

module _ (s : TunnelService) (v : Inv s) (path : Text) where
  match_pattern_sound :
      (pattern : Text) (client : ClientInfo)
      → match_pattern s path pattern ≡ some client
      → Serves s pattern client × (is_path_match pattern path ≡ true)
  unfolding match_pattern
  match_pattern_sound pattern client h = elim (Bool-cases (is_path_match pattern path)) [
    | inl matches ↦ (first_client_sound s v pattern client (ground arith), matches)
    | inr differs ↦ absurd (ground arith)
  ]

  match_patterns_sound :
      (order : List Text) (client : ClientInfo)
      → match_patterns s path order ≡ some client
      → (pattern : Text) × Serves s pattern client × (is_path_match pattern path ≡ true)
  unfolding match_patterns
  match_patterns_sound [] client h = cc
  match_patterns_sound (p ∷ ps) client h = elim (Option-cases (match_pattern s path p)) [
    | inl no_match ↦ match_patterns_sound ps client (ground (arith, no_match))
    | inr (c, e) ↦
        let (serves, matches) = match_pattern_sound p client (ground (arith, e)) in
        (p, serves, matches)
  ]

  match_pattern_total :
      (pattern : Text) (client : ClientInfo)
      → Serves s pattern client
      → is_path_match pattern path ≡ true
      → (found : ClientInfo) × (match_pattern s path pattern ≡ some found) × Serves s pattern found
  unfolding match_pattern
  match_pattern_total pattern client c m =
      let (found, e, serves) =
        first_client_total s v pattern (ids_at-Serves s v pattern client c) in
      (found, rw m e, serves)

  match_patterns_total :
      (order : List Text) (pattern : Text) (client : ClientInfo)
      → contains order pattern ≡ true
      → Serves s pattern client
      → is_path_match pattern path ≡ true
      → (found : ClientInfo) × (match_patterns s path order ≡ some found)
  unfolding match_patterns contains
  match_patterns_total [] pattern client h c m = cc
  match_patterns_total (p ∷ ps) pattern client h c m =
      elim (Option-cases (match_pattern s path p)) [
        | inl no_match ↦
            let (hit, hits, _) = match_pattern_total pattern client c m in
            let (found, e) =
              match_patterns_total ps pattern client
                (ground (arith, text_beq_iff p pattern, hits, no_match)) c m in
            (found, rw (no_match, match_patterns) e)
        | inr (found, e) ↦ (found, rw (e, match_patterns))
      ]

-- The slice of a visited path: a path with a client has an entry.
lookup-ne-none :
    (index : PathIndex) (path : Text) → ids_at index path ≢ [] → lookup path index ≢ none
unfolding ids_at lookup_or
lookup-ne-none index path h e = h (rw (e, lookup_or))

module _ (s : TunnelService) (v : Inv s) (request_path : Text) (order : List Text) where
  find_exact :
      (client : ClientInfo)
      → first_client s (ids_at s.path_clients (normalize_path request_path)) ≡ some client
      → find_matching_client s request_path order ≡ ok client
  unfolding find_matching_client
  find_exact client e = rw (e, find_matching_client)

  find_by_pattern :
      first_client s (ids_at s.path_clients (normalize_path request_path)) ≡ none
      → (client : ClientInfo) → match_patterns s (normalize_path request_path) order ≡ some client
      → find_matching_client s request_path order ≡ ok client
  unfolding find_matching_client
  find_by_pattern e client h = ground (arith, e, h)

-- A client that is found is stored, and its path is a prefix of the normalised request path, in
-- whatever order the patterns are visited.
pub find_matching_client_sound :
    (s : TunnelService) (request_path : Text) (order : List Text) (client : ClientInfo)
    → Inv s
    → find_matching_client s request_path order ≡ ok client
    → (path : Text) × Serves s path client
      × (is_path_match path (normalize_path request_path) ≡ true)
unfolding find_matching_client is_path_match
find_matching_client_sound s request_path order client v h =
    by_exact (first_client s (ids_at s.path_clients np)) refl
  where
    np : Text
    np = normalize_path request_path

    by_exact :
        (o : Option ClientInfo)
        → first_client s (ids_at s.path_clients np) ≡ o
        → (path : Text) × Serves s path client × (is_path_match path np ≡ true)
    by_exact (some c) e =
        (np, first_client_sound s v np client (ground (arith, e)), has_prefix_self np)
    by_exact none e = match_patterns_sound s v np order client (ground (arith, e))

-- While the path of some client is a prefix of the normalised request path, a client is found: the
-- search fails only if no client fits.
pub find_matching_client_complete :
    (s : TunnelService) (request_path : Text) (order : List Text) (path : Text)
    (client : ClientInfo)
    → Inv s
    → Visits order s.path_clients
    → Serves s path client
    → is_path_match path (normalize_path request_path) ≡ true
    → (found : ClientInfo) × (find_matching_client s request_path order ≡ ok found)
find_matching_client_complete s request_path order path client v visits c m =
    elim (Option-cases (first_client s (ids_at s.path_clients np))) [
      | inr (found, e) ↦ (found, find_exact s v request_path order found e)
      | inl no_exact ↦
          let entry =
            visits path (lookup-ne-none s.path_clients path (ids_at-Serves s v path client c)) in
          let (found, e) = match_patterns_total s v np order path client entry c m in
          (found, find_by_pattern s v request_path order no_exact found e)
    ]
  where
    np : Text
    np = normalize_path request_path

-- If a client has the normalised request path itself, one such is found, the same in every order.
find_matching_client_exact :
    (s : TunnelService) (request_path : Text) (client : ClientInfo)
    → Inv s
    → Serves s (normalize_path request_path) client
    → (found : ClientInfo) × Serves s (normalize_path request_path) found
      × ((order : List Text) → find_matching_client s request_path order ≡ ok found)
find_matching_client_exact s request_path client v c =
    let (found, e, serves) =
      first_client_total s v _ (ids_at-Serves s v (normalize_path request_path) client c) in
    (found, serves, λ order. find_exact s v request_path order found e)

first_decides :
    (s : TunnelService) (request_path r : Text) (order : List Text) (found : ClientInfo)
    → ids_at s.path_clients (normalize_path request_path) ≡ []
    → match_pattern s (normalize_path request_path) r ≡ some found
    → find_matching_client s request_path (r ∷ order) ≡ ok found
unfolding find_matching_client match_patterns first_client
first_decides s request_path r order found none_there e = ground (arith, none_there, e)

-- With no client at the request path itself, a path that is a prefix of it and is visited first
-- decides. So of two such paths the order of Go's map chooses, between different clients, and not
-- the longer path.
find_matching_client_ambiguous :
    (s : TunnelService) (request_path p q : Text) (client client' : ClientInfo)
    → Inv s
    → Serves s p client
    → Serves s q client'
    → p ≢ q
    → is_path_match p (normalize_path request_path) ≡ true
    → is_path_match q (normalize_path request_path) ≡ true
    → ids_at s.path_clients (normalize_path request_path) ≡ []
    → (found found' : ClientInfo) × (found ≢ found')
      × ((order : List Text) → find_matching_client s request_path (p ∷ order) ≡ ok found)
      × ((order : List Text) → find_matching_client s request_path (q ∷ order) ≡ ok found')
find_matching_client_ambiguous s request_path p q client client' v c c' ne m m' none_there =
    let np = normalize_path request_path in
    let (found, e, serves) = match_pattern_total s v np p client c m in
    let (found', e', serves') = match_pattern_total s v np q client' c' m' in
    (
      found,
      found',
      λ same. ne (cc (same, serves.at, serves'.at)),
      λ order. first_decides s request_path p order found none_there e,
      λ order. first_decides s request_path q order found' none_there e',
    )
