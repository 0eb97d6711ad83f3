-- ===== src/Service/Tunnel/Registration.antt =====
-- `Register`: what it stores, on every branch, and that it keeps the invariant.
use attachcloudip.Common.{
  ℕ, ◌+◌, ◌≡◌, refl, sym, ◌∙◌, List, [], ◌∷◌, none, some, if◌then◌else◌, ◌==◌, nat_eq, arith, count,
  contains, returns, panics, inl, inr, beq_cases, beq_self,
}
use mathlib.Core.Path.{subst₂}
use attachcloudip.Common.Map.{lookup, insert, lookup-insert}
use attachcloudip.Common.Text.{Text, text_eq, text_beq_iff}
use attachcloudip.PathIndex.{ids_at, attach, attach_all}
use attachcloudip.PathIndex.Laws.{NoEmpty, count-attach_all, attach_all-NoEmpty}
use attachcloudip.Service.Paths.{normalize_path}
use attachcloudip.Service.Paths.Laws.{IsNormal, normalize_path-IsNormal}
use attachcloudip.Service.Types.{StreamRequest, ClientInfo}
use attachcloudip.Service.Tunnel.{
  TunnelService, remove_client, new_client, registered, commit_client,
}
use attachcloudip.Service.Tunnel.Invariant.{
  paths_of, Inv, IsClient, remove_client-Inv, remove_client-clients, remove_client-available_ports,
}

-- The client that a registration stores.
unfoldable pub client_at : Text → Text → ℕ → Text → ℕ → Text → ClientInfo
client_at id session_id now protocol port path =
    record (new_client id session_id now protocol port) { paths = path ∷ [] }

-- A service with the client stored and indexed.
unfoldable pub with_client : TunnelService → ClientInfo → Text → List ℕ → TunnelService
with_client s client path ports = record {
  clients = insert client.id client s.clients;
  path_clients = attach client.id s.path_clients path;
  available_ports = ports;
}

paths_of-with_client :
    (s : TunnelService) (client : ClientInfo) (path : Text) (ports : List ℕ) (i : Text)
    → paths_of (with_client s client path ports) i
      ≡ (if client.id == i then client.paths else paths_of s i)
unfolding paths_of with_client
paths_of-with_client s client path ports i =
    ground (arith, lookup-insert client.id i client s.clients)

-- The index gains the new ID at the path, once.
count-with_client :
    (s : TunnelService) (client : ClientInfo) (path : Text) (ports : List ℕ) (i p : Text)
    → count i (ids_at (with_client s client path ports).path_clients p) ≡ (
        if client.id == i
        then count i (ids_at s.path_clients p) + count p (path ∷ [])
        else count i (ids_at s.path_clients p))
unfolding with_client attach_all
count-with_client s client path ports i p =
    count-attach_all client.id s.path_clients (path ∷ []) i p

with_client-NoEmpty :
    (s : TunnelService) (client : ClientInfo) (path : Text) (ports : List ℕ)
    → NoEmpty s.path_clients
    → NoEmpty (with_client s client path ports).path_clients
unfolding with_client attach_all
with_client-NoEmpty s client path ports h =
    attach_all-NoEmpty client.id s.path_clients (path ∷ []) h

lookup-with_client :
    (s : TunnelService) (client : ClientInfo) (path : Text) (ports : List ℕ) (i : Text)
    → lookup i (with_client s client path ports).clients
      ≡ (if client.id == i then some client else lookup i s.clients)
unfolding with_client
lookup-with_client s client path ports i = lookup-insert client.id i client s.clients

paths_of_missing : (s : TunnelService) (id : Text) → lookup id s.clients ≡ none → paths_of s id ≡ []
unfolding paths_of
paths_of_missing s id e = rw (e, paths_of)

-- Storing a client under an ID that is not in use keeps the invariant.
module _ (s : TunnelService) (client : ClientInfo) (path : Text) (ports : List ℕ)
    (c : IsClient client.id client) (one : client.paths ≡ path ∷ [])
    (fresh : lookup client.id s.clients ≡ none) (v : Inv s) where
  with_client-stored :
      (i : Text) (d : ClientInfo)
      → lookup i (with_client s client path ports).clients ≡ some d
      → IsClient i d
  with_client-stored i d h = elim (beq_cases client.id i) [
    | inl same ↦
        let e : client ≡ d = ground (arith, lookup-with_client s client path ports i, beq_self i) in
        subst₂ IsClient same e c
    | inr (_, diff) ↦ v.stored i d (rw diff at (sym (lookup-with_client s client path ports i) ∙ h))
  ]

  with_client-indexed :
      (i p : Text)
      → count i (ids_at (with_client s client path ports).path_clients p)
        ≡ count p (paths_of (with_client s client path ports) i)
  unfolding count
  with_client-indexed i p = ground (
    arith,
    count-with_client s client path ports i p,
    paths_of-with_client s client path ports i,
    v.indexed i p,
    paths_of_missing s client.id fresh,
    text_beq_iff client.id i,
    one,
  )

  with_client-Inv : Inv (with_client s client path ports)
  with_client-Inv = record {
    stored = with_client-stored;
    indexed = with_client-indexed;
    no_empty = with_client-NoEmpty s client path ports v.no_empty;
  }

client_at-IsClient :
    (id session_id : Text) (now : ℕ) (protocol : Text) (port : ℕ) (path : Text)
    → IsNormal path
    → IsClient id (client_at id session_id now protocol port path)
unfolding client_at new_client
client_at-IsClient id session_id now protocol port path h = record {
  named = refl;
  path = path;
  one_path = refl;
  normal = h;
}

-- The service after the part under the lock.
unfoldable pub committed :
    TunnelService → Text → ℕ → StreamRequest → Text → ℕ → List ℕ → TunnelService
committed s session_id now req path port ports =
    with_client (remove_client s req.request_id)
      (client_at req.request_id session_id now req.protocol port (normalize_path path))
      (normalize_path path) ports

pub committed-Inv :
    (s : TunnelService) (session_id : Text) (now : ℕ) (req : StreamRequest) (path : Text) (port : ℕ)
    (ports : List ℕ)
    → Inv s
    → Inv (committed s session_id now req path port ports)
unfolding committed client_at new_client
committed-Inv s session_id now req path port ports v =
    with_client-Inv (remove_client s req.request_id)
      (client_at req.request_id session_id now req.protocol port (normalize_path path))
      (normalize_path path) ports
      (client_at-IsClient req.request_id session_id now req.protocol port (normalize_path path)
        (normalize_path-IsNormal path))
      refl
      (ground
        (arith, remove_client-clients s req.request_id req.request_id, beq_self req.request_id))
      (remove_client-Inv s req.request_id v)

-- The clients after a registration: the new one, and the others as they were.
pub committed-clients :
    (s : TunnelService) (session_id : Text) (now : ℕ) (req : StreamRequest) (path : Text) (port : ℕ)
    (ports : List ℕ) (i : Text)
    → lookup i (committed s session_id now req path port ports).clients ≡ (
        if req.request_id == i
        then some (client_at req.request_id session_id now req.protocol port (normalize_path path))
        else lookup i s.clients)
unfolding committed client_at new_client
committed-clients s session_id now req path port ports i = ground (
  arith,
  lookup-with_client (remove_client s req.request_id)
      (client_at req.request_id session_id now req.protocol port (normalize_path path))
      (normalize_path path) ports i,
  remove_client-clients s req.request_id i,
)

pub committed-available_ports :
    (s : TunnelService) (session_id : Text) (now : ℕ) (req : StreamRequest) (path : Text) (port : ℕ)
    (ports : List ℕ)
    → (committed s session_id now req path port ports).available_ports ≡ ports
unfolding committed with_client
committed-available_ports s session_id now req path port ports = refl

-- With no port left it panics.
pub commit_client_panics :
    (s : TunnelService) (session_id : Text) (now : ℕ) (req : StreamRequest) (path : Text)
    → s.available_ports ≡ []
    → commit_client s session_id now req path ≡ panics
unfolding commit_client
commit_client_panics s session_id now req path e =
    rw (remove_client-available_ports s req.request_id ∙ e, commit_client)

-- With a port left it returns that port and stores the client.
pub commit_client_lem :
    (s : TunnelService) (session_id : Text) (now : ℕ) (req : StreamRequest) (path : Text) (port : ℕ)
    (ports : List ℕ)
    → s.available_ports ≡ port ∷ ports
    → commit_client s session_id now req path
      ≡ returns (registered req.request_id port, committed s session_id now req path port ports)
unfolding commit_client committed with_client client_at contains new_client
commit_client_lem s session_id now req path port ports e =
    rw (remove_client-available_ports s req.request_id ∙ e, commit_client)
