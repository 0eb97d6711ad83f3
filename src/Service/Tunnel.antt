-- ===== src/Service/Tunnel.antt =====
-- pkg/service/tunnel_service.go: the registration of tunnel clients and the search for a client by
-- path. Each method holds the service's lock where it touches the maps; what `Register` reads before
-- it takes the lock is a step of its own. Session IDs and times are arguments.
pub mod Invariant
pub mod Registration
pub mod Branches
pub mod Guarantees
pub mod PortUse
pub mod History
pub mod Matching
pub mod Search
pub mod Status
mod Examples
pub mod Nested
mod SearchExamples
use attachcloudip.Common.{
  ℕ, List, [], ◌∷◌, ◌++◌, Bool, ◌&&◌, Option, none, some, if◌then◌else◌, ◌==◌, ◌>>=◌, nat_eq,
  length, contains, Outcome, returns, panics, Result, ok, err,
}
use attachcloudip.Common.Map.{Map, lookup, insert, delete}
use attachcloudip.Common.Text.{Text, text_eq, codes}
use attachcloudip.PathIndex.{PathIndex, ids_at, attach, detach}
use attachcloudip.Service.Paths.{normalize_path, is_path_match}
use attachcloudip.Service.Types.{
  HttpRequest, StreamRequest, StreamResponse, registration_success, ClientInfo,
}

pub record TunnelService : Type 0 where
  pub clients : Map Text ClientInfo
  pub path_clients : PathIndex
  pub available_ports : List ℕ

pub data Error : Type 0 where
  client_id_required path_required no_available_ports : Error
  client_not_found : Text → Error
  no_client_found : Text → Error

unfoldable pub new_tunnel_service : List ℕ → TunnelService
new_tunnel_service ports = record { clients = []; path_clients = []; available_ports = ports }

-- `removeClientPaths`: the paths are normalised once more.
unfoldable pub remove_client_paths : Text → PathIndex → List Text → PathIndex
remove_client_paths id index [] = index
remove_client_paths id index (p ∷ paths) =
    remove_client_paths id (detach id index (normalize_path p)) paths

unfoldable pub remove_client : TunnelService → Text → TunnelService
remove_client s client_id = elim (lookup client_id s.clients) [
  | none ↦ s
  | some client ↦ record s {
    clients = delete client_id s.clients;
    path_clients = remove_client_paths client.id s.path_clients client.paths;
  }
]

-- The part of `Register` before the lock.
unfoldable pub check_request : TunnelService → StreamRequest → Outcome (Result Error Text)
check_request s req =
    if length req.request_id == 0 then returns (err client_id_required) else elim req.request [
      | none ↦ panics
      | some http ↦
          if length http.path == 0
          then returns (err path_required)
          else if length s.available_ports == 0
          then returns (err no_available_ports)
          else returns (ok http.path)
    ]

unfoldable pub new_client : Text → Text → ℕ → Text → ℕ → ClientInfo
new_client id session_id now protocol port = record {
  id = id;
  session_id = session_id;
  paths = [];
  description = [];
  metadata = [];
  last_seen = now;
  status = codes "connecting";
  protocol = protocol;
  port = port;
}

-- The client with the path added to its list and to the index, unless its list has it.
add_path : ClientInfo → PathIndex → Text → ClientInfo × PathIndex
add_path client index path =
    if contains client.paths path
    then (client, index)
    else (record client { paths = client.paths ++ path ∷ [] }, attach client.id index path)

store_client : TunnelService → ClientInfo × PathIndex → List ℕ → TunnelService
store_client s (client, index) ports = record {
  clients = insert client.id client s.clients;
  path_clients = index;
  available_ports = ports;
}

pub registered : Text → ℕ → StreamResponse
registered id port = record {
  type = registration_success;
  request_id = id;
  request = none;
  response = none;
  message = [];
  port = port;
}

-- The part of `Register` under the lock. `s.availablePorts[0]` panics if no port is left.
unfoldable pub commit_client :
    TunnelService → Text → ℕ → StreamRequest → Text → Outcome (StreamResponse × TunnelService)
unfolding new_client add_path store_client registered
commit_client s session_id now req path =
    let cleared = remove_client s req.request_id in
    elim cleared.available_ports [
      | [] ↦ panics
      | port ∷ ports ↦
          let client = new_client req.request_id session_id now req.protocol port in
          let stored = add_path client cleared.path_clients (normalize_path path) in
          returns (registered req.request_id port, store_client cleared stored ports)
    ]

finish :
    TunnelService
    → Text
    → ℕ
    → StreamRequest
    → Result Error Text
    → Outcome (Result Error StreamResponse × TunnelService)
finish s session_id now req (err e) = returns (err e, s)
finish s session_id now req (ok path) = do
  (response, s') ← commit_client s session_id now req path
  returns (ok response, s')

-- A call of `Register` with no other in between.
unfoldable pub register :
    TunnelService → Text → ℕ → StreamRequest → Outcome (Result Error StreamResponse × TunnelService)
unfolding finish
register s session_id now req = do
  checked ← check_request s req
  finish s session_id now req checked

unfoldable pub send_to_client : TunnelService → Text → Result Error (Unit {0})
send_to_client s client_id = elim (lookup client_id s.clients) [
  | some client ↦ ok tt
  | none ↦ err (client_not_found client_id)
]

-- `s.clients[clientIDs[0]]`, where the slice has a first entry.
unfoldable pub first_client : TunnelService → List Text → Option ClientInfo
first_client s [] = none
first_client s (id ∷ ids) = lookup id s.clients

-- One round of the loop over the patterns.
match_pattern : TunnelService → Text → Text → Option ClientInfo
match_pattern s path pattern =
    if is_path_match pattern path then first_client s (ids_at s.path_clients pattern) else none

unfoldable pub match_patterns : TunnelService → Text → List Text → Option ClientInfo
unfolding match_pattern
match_patterns s path [] = none
match_patterns s path (pattern ∷ patterns) =
    let rest = match_patterns s path patterns in
    elim (match_pattern s path pattern) [ some client ↦ some client | none ↦ rest ]

-- `order` is the order in which Go visits the patterns.
unfoldable pub find_matching_client : TunnelService → Text → List Text → Result Error ClientInfo
find_matching_client s request_path order =
    let path = normalize_path request_path in
    let by_pattern : Result Error ClientInfo = elim (match_patterns s path order) [
      | some client ↦ ok client
      | none ↦ err (no_client_found request_path)
    ] in
    elim (first_client s (ids_at s.path_clients path)) [
      | some client ↦ ok client
      | none ↦ by_pattern
    ]
