-- ===== src/Service/Tunnel/Invariant.antt =====
-- The clients and the path index of the tunnel service agree after every operation.
use attachcloudip.Common.{
  ℕ, ◌≡◌, refl, ap, List, [], ◌∷◌, none, some, if◌then◌else◌, ◌==◌, nat_eq, arith, count,
  Option-cases, inl, inr,
}
use attachcloudip.Common.Map.{lookup, lookup_or, lookup-delete}
use attachcloudip.Common.Text.{Text, text_eq, text_beq_iff}
use attachcloudip.PathIndex.{PathIndex, ids_at, detach_all}
use attachcloudip.PathIndex.Laws.{NoEmpty, count-detach_all, detach_all-NoEmpty}
use attachcloudip.Service.Paths.Laws.{IsNormal, normalize_path_id}
use attachcloudip.Service.Types.{ClientInfo}
use attachcloudip.Service.Tunnel.{
  TunnelService, new_tunnel_service, remove_client_paths, remove_client, new_client,
}

unfoldable pub paths_of : TunnelService → Text → List Text
paths_of s id = elim (lookup id s.clients) [ some client ↦ client.paths | none ↦ [] ]

-- The client is stored under its own ID and has one path, in normal form.
pub record IsClient (id : Text) (client : ClientInfo) : Type 0 where
  pub named : client.id ≡ id
  pub path : Text
  pub one_path : client.paths ≡ path ∷ []
  pub normal : IsNormal path

-- Every stored client is one such, a path's slice names the clients that list the path and no
-- others, each once, and no path has an empty slice.
pub record Inv (s : TunnelService) : Type 0 where
  pub stored :
      (id : Text) (client : ClientInfo) → lookup id s.clients ≡ some client → IsClient id client
  pub indexed : (id p : Text) → count id (ids_at s.path_clients p) ≡ count p (paths_of s id)
  pub no_empty : NoEmpty s.path_clients

pub new_tunnel_service-Inv : (ports : List ℕ) → Inv (new_tunnel_service ports)
unfolding new_tunnel_service lookup paths_of count ids_at lookup_or
new_tunnel_service-Inv ports = record {
  stored = λ id client e. cc;
  indexed = λ id p. refl;
  no_empty = λ p e. cc;
}

remove_client_paths-normal :
    (id : Text) (index : PathIndex) (p : Text)
    → IsNormal p
    → remove_client_paths id index (p ∷ []) ≡ detach_all id index (p ∷ [])
unfolding remove_client_paths detach_all
remove_client_paths-normal id index p h = rw (normalize_path_id p h)

-- The index after a removal.
remove_client-path_clients :
    (s : TunnelService) (id : Text)
    → Inv s
    → (remove_client s id).path_clients ≡ detach_all id s.path_clients (paths_of s id)
unfolding remove_client detach_all paths_of
remove_client-path_clients s id v = elim (Option-cases (lookup id s.clients)) [
  | inl missing ↦ rw (missing, remove_client, paths_of)
  | inr (client, e) ↦
      let c = v.stored id client e in
      rw (e, remove_client, paths_of, c.one_path, c.named)
        (remove_client_paths-normal id s.path_clients c.path c.normal)
]

-- The clients after a removal, and the ports, which stay as they are.
pub remove_client-clients :
    (s : TunnelService) (id i : Text)
    → lookup i (remove_client s id).clients ≡ (if id == i then none else lookup i s.clients)
unfolding remove_client
remove_client-clients s id i = ground (arith, lookup-delete id i s.clients, text_beq_iff id i)

pub remove_client-available_ports :
    (s : TunnelService) (id : Text) → (remove_client s id).available_ports ≡ s.available_ports
unfolding remove_client
remove_client-available_ports s id = ground arith

paths_of-remove_client :
    (s : TunnelService) (id i : Text)
    → paths_of (remove_client s id) i ≡ (if id == i then [] else paths_of s i)
unfolding paths_of
paths_of-remove_client s id i = ground (arith, remove_client-clients s id i)

-- `removeClient` keeps the invariant.
pub remove_client-Inv : (s : TunnelService) (id : Text) → Inv s → Inv (remove_client s id)
unfolding count
remove_client-Inv s id v = record {
  stored = λ i client e. v.stored i client (ground (arith, remove_client-clients s id i));
  indexed = λ i p. ground (
    arith,
    ap (λ index. count i (ids_at index p)) (remove_client-path_clients s id v),
    count-detach_all id s.path_clients (paths_of s id) i p,
    paths_of-remove_client s id i,
    v.indexed i p,
    text_beq_iff id i,
  );
  no_empty =
      rw (remove_client-path_clients s id v)
        (detach_all-NoEmpty id s.path_clients (paths_of s id) v.no_empty);
}

-- What a registration stores.
abbrev pub client_at : Text → Text → ℕ → Text → ℕ → Text → ClientInfo
unfolding new_client
client_at id session_id now protocol port path =
    record (new_client id session_id now protocol port) { paths = path ∷ [] }
