-- ===== src/Service/Tunnel/Matching.antt =====
-- `FindMatchingClient`: which client it finds for a request path.
use attachcloudip.Common.{
  ◌≡◌, ◌≢◌, ◌<◌, refl, ◌∙◌, List, [], ◌∷◌, true, none, some, count, contains, arith, Option-cases,
  List-cases, beq_self, inl, inr,
}
use mathlib.Core.Path.{subst}
use attachcloudip.Common.Map.{lookup}
use attachcloudip.Common.Text.{Text, text_eq, text_beq_iff}
use attachcloudip.PathIndex.{PathIndex, ids_at}
use attachcloudip.Service.Types.{ClientInfo}
use attachcloudip.Service.Tunnel.{TunnelService, first_client}
use attachcloudip.Service.Tunnel.Invariant.{Inv, paths_of}

-- The client is stored and its one path is `path`.
pub record Serves (s : TunnelService) (path : Text) (client : ClientInfo) : Type 0 where
  pub id : Text
  pub stored : lookup id s.clients ≡ some client
  pub at : client.paths ≡ path ∷ []

-- `order` visits every path that has an entry.
abbrev pub Visits : List Text → PathIndex → Type 0
Visits order index = (p : Text) → lookup p index ≢ none → contains order p ≡ true

one_path_of_count : (p q : Text) → 0 < count p (q ∷ []) → q ∷ [] ≡ p ∷ []
unfolding count
one_path_of_count p q h = ground (arith, text_beq_iff q p)

count_head : (id : Text) (ids : List Text) → 0 < count id (id ∷ ids)
unfolding count
count_head id ids = rw (beq_self id) (omega arith)

count-none : (id : Text) → count id [] ≡ 0
unfolding count
count-none id = refl

module _ (s : TunnelService) (v : Inv s) where
  -- An ID in the slice of a path names a client with that path.
  Serves-of_count :
      (id path : Text)
      → 0 < count id (ids_at s.path_clients path)
      → (client : ClientInfo) × (lookup id s.clients ≡ some client) × Serves s path client
  unfolding paths_of
  Serves-of_count id path h = elim (Option-cases (lookup id s.clients)) [
    | inl missing ↦ absurd (ground (arith, v.indexed id path, count-none path))
    | inr (client, e) ↦
        let c = v.stored id client e in
        let listed : 0 < count path (c.path ∷ []) = ground (arith, v.indexed id path, c.one_path) in
        let at : client.paths ≡ path ∷ [] = c.one_path ∙ one_path_of_count path c.path listed in
        (client, e, record { id = id; stored = e; at = at })
  ]

  -- What the first ID of a path's slice gives.
  pub first_client_sound :
      (path : Text) (client : ClientInfo)
      → first_client s (ids_at s.path_clients path) ≡ some client
      → Serves s path client
  unfolding first_client
  first_client_sound path client h = elim (List-cases (ids_at s.path_clients path)) [
    | inl none_there ↦ absurd (ground (arith, none_there))
    | inr (id, ids, e) ↦
        let (c, stored, serves) = Serves-of_count id path (rw e (count_head id ids)) in
        subst (Serves s path) (ground (arith, e, stored)) serves
  ]

  pub first_client_total :
      (path : Text)
      → ids_at s.path_clients path ≢ []
      → (client : ClientInfo) × (first_client s (ids_at s.path_clients path) ≡ some client)
        × Serves s path client
  unfolding first_client
  first_client_total path h = elim (List-cases (ids_at s.path_clients path)) [
    | inl none_there ↦ absurd (h none_there)
    | inr (id, ids, e) ↦
        let (c, stored, serves) = Serves-of_count id path (rw e (count_head id ids)) in
        (c, rw (e, first_client) stored, serves)
  ]

  -- The slice of a client's path is not empty.
  pub ids_at-Serves :
      (path : Text) (client : ClientInfo) → Serves s path client → ids_at s.path_clients path ≢ []
  unfolding paths_of
  ids_at-Serves path client c e =
      absurd (
        ground (arith, v.indexed c.id path, c.stored, c.at, count_head path [], count-none c.id, e))
