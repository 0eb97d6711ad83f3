-- ===== src/Service/Tunnel/Status.antt =====
-- pkg/service/tunnel_service.go: `HandleStatusRequest`, up to the encoding as JSON. `order` is the order
-- in which Go visits the clients.
use attachcloudip.Common.{
  ℕ, zero, suc, ◌+◌, ◌≡◌, refl, List, [], ◌∷◌, none, some, if◌then◌else◌, ◌==◌, nat_eq, arith,
  count, Option-cases, inl, inr, ap,
}
use attachcloudip.Common.Map.{lookup}
use attachcloudip.Common.Text.{Text, text_eq, text_beq_iff}
use attachcloudip.PathIndex.{PathIndex, ids_at}
use attachcloudip.Service.Types.{ClientInfo}
use attachcloudip.Service.Tunnel.{TunnelService}
use attachcloudip.Service.Tunnel.Invariant.{Inv, paths_of}

pub record StatusEntry : Type 0 where
  pub id : Text
  pub paths : List Text
  pub description : Text
  pub status : Text
  pub port : ℕ

pub record StatusPage : Type 0 where
  pub clients : List StatusEntry
  pub paths : PathIndex

unfoldable pub status_entry : ClientInfo → StatusEntry
status_entry client = record {
  id = client.id;
  paths = client.paths;
  description = client.description;
  status = client.status;
  port = client.port;
}

unfoldable pub status_entries : TunnelService → List Text → List StatusEntry
unfolding status_entry
status_entries s [] = []
status_entries s (id ∷ ids) = elim (lookup id s.clients) [
  | some client ↦ status_entry client ∷ status_entries s ids
  | none ↦ status_entries s ids
]

unfoldable pub handle_status_request : TunnelService → List Text → StatusPage
unfolding status_entries
handle_status_request s order = record { clients = status_entries s order; paths = s.path_clients }

-- How often the entries with an ID list a path.
abbrev pub listed_at : Text → Text → List StatusEntry → ℕ
listed_at id path [] = 0
listed_at id path (e ∷ es) = (if e.id == id then count path e.paths else 0) + listed_at id path es

-- `order` visits each client once, and nothing else.
abbrev pub VisitsOnce : List Text → TunnelService → Type 0
VisitsOnce order s =
    (id : Text) → count id order ≡ elim (lookup id s.clients) [ some client ↦ 1 | none ↦ 0 ]

abbrev times : ℕ → ℕ → ℕ
times zero x = 0
times (suc n) x = x + times n x

status_entries-none :
    (s : TunnelService) (j : Text) (order : List Text)
    → lookup j s.clients ≡ none
    → status_entries s (j ∷ order) ≡ status_entries s order
unfolding status_entries
status_entries-none s j order e = rw (e, status_entries) refl

status_entries-some :
    (s : TunnelService) (j : Text) (order : List Text) (client : ClientInfo)
    → lookup j s.clients ≡ some client
    → status_entries s (j ∷ order) ≡ status_entry client ∷ status_entries s order
unfolding status_entries
status_entries-some s j order client e = rw (e, status_entries) refl

paths_of-none : (s : TunnelService) (j : Text) → lookup j s.clients ≡ none → paths_of s j ≡ []
unfolding paths_of
paths_of-none s j e = rw (e, paths_of) refl

paths_of-some :
    (s : TunnelService) (j : Text) (client : ClientInfo)
    → lookup j s.clients ≡ some client
    → paths_of s j ≡ client.paths
unfolding paths_of
paths_of-some s j client e = rw (e, paths_of) refl

count-nil : (id : Text) → count id [] ≡ 0
unfolding count
count-nil id = refl

count-cons :
    (id j : Text) (order : List Text)
    → count id (j ∷ order) ≡ (if j == id then suc (count id order) else count id order)
unfolding count
count-cons id j order = refl

-- Each visit of a stored client lists its paths.
abbrev Lists : TunnelService → Text → Text → List Text → Type 0
Lists s id path order =
    listed_at id path (status_entries s order) ≡ times (count id order) (count path (paths_of s id))

Lists-none :
    (s : TunnelService) (id path j : Text) (order : List Text)
    → lookup j s.clients ≡ none
    → Lists s id path order
    → Lists s id path (j ∷ order)
unfolding count
Lists-none s id path j order e h = ground (
  arith,
  ap (listed_at id path) (status_entries-none s j order e),
  h,
  paths_of-none s j e,
  count-cons id j order,
  text_beq_iff j id,
)

Lists-some :
    (s : TunnelService) (id path j : Text) (order : List Text) (client : ClientInfo)
    → lookup j s.clients ≡ some client
    → client.id ≡ j
    → Lists s id path order
    → Lists s id path (j ∷ order)
unfolding status_entry
Lists-some s id path j order client e named h = ground (
  arith,
  ap (listed_at id path) (status_entries-some s j order client e),
  h,
  named,
  paths_of-some s j client e,
  count-cons id j order,
  text_beq_iff j id,
)

listed_at-status_entries :
    (s : TunnelService) (v : Inv s) (id path : Text) (order : List Text) → Lists s id path order
unfolding status_entries count
listed_at-status_entries s v id path [] = refl
listed_at-status_entries s v id path (j ∷ order) = elim (Option-cases (lookup j s.clients)) [
  | inl missing ↦ Lists-none s id path j order missing (listed_at-status_entries s v id path order)
  | inr (client, stored) ↦
      Lists-some s id path j order client stored (v.stored j client stored).named
        (listed_at-status_entries s v id path order)
]

-- In a service whose maps agree, and for any order that visits each client once, the two parts of the
-- page agree: an ID stands under a path as often as the list has entries with the ID and that path.
pub handle_status_request-Agrees :
    (s : TunnelService) (order : List Text) (id path : Text)
    → Inv s
    → VisitsOnce order s
    → count id (ids_at (handle_status_request s order).paths path)
      ≡ listed_at id path (handle_status_request s order).clients
unfolding handle_status_request
handle_status_request-Agrees s order id path v once = elim (Option-cases (lookup id s.clients)) [
  | inl missing ↦ ground (
    arith,
    missing,
    once id,
    v.indexed id path,
    listed_at-status_entries s v id path order,
    paths_of-none s id missing,
    count-nil path,
  )
  | inr (client, stored) ↦
      ground (arith, stored, once id, v.indexed id path, listed_at-status_entries s v id path order)
]
