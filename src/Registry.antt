-- ===== src/Registry.antt =====
-- pkg/registry/registry.go. A method is run by one goroutine, over the registry with its lock: `mu`
-- says whether it is held for writing. A client's own lock is taken and released around single
-- accesses, under the registry's, and has no part in the model. IDs and times are arguments.
pub mod Agree
pub mod Locking
pub mod Calls
pub mod Lookup
pub mod Removal
pub mod Staleness
pub mod Counters
pub mod Connections
mod Examples
use attachcloudip.Common.{
  ℕ, List, [], ◌∷◌, ◌++◌, Bool, true, false, Option, none, some, if◌then◌else◌, ◌==◌, ◌>>=◌, nat_eq,
  length, erase, Outcome, returns, panics, blocks, Result, ok, err,
}
use attachcloudip.Common.Map.{Map, lookup, insert, delete, map_values}
use attachcloudip.Common.Text.{Text, text_eq, codes}
use attachcloudip.Common.Words.{increment, decrement, double, greater, sub_time}
use attachcloudip.PathIndex.{PathIndex, attach_all, detach_all}

pub data ClientType : Type 0 where
  client_type_http client_type_tcp : ClientType

pub record ClientRegistration : Type 0 where
  pub id : Text
  pub type : ClientType
  pub paths : List Text
  pub last_heartbeat : ℕ
  pub tcp_port : ℕ
  pub active_tcp_connections : ℕ
  pub status : Text
  pub metadata : Map Text Text

pub record Registry : Type 0 where
  pub mu : Bool
  pub clients : Map Text ClientRegistration
  pub path_to_client_ids : PathIndex
  pub available_tcp_port : ℕ

pub data Error : Type 0 where
  allocation_failed : Error → Error
  no_clients_found : Text → Error
  client_not_found : Text → Error

abbrev pub Op : Type 0 → Type 0
Op A = Registry → Outcome (A × Registry)

-- `r.mu.Lock(); defer r.mu.Unlock()` around a body. A goroutine that holds the lock already waits
-- for itself.
unfoldable pub with_lock : {A : Type 0} → Op A → Op A
with_lock body r =
    if r.mu
    then blocks
    else do (a, r') ← body (record r { mu = true }); returns (a, record r' { mu = false })

-- `r.mu.RLock(); defer r.mu.RUnlock()` around a body that only reads.
unfoldable pub with_rlock : {A : Type 0} → (Registry → A) → Op A
with_rlock body r = if r.mu then blocks else returns (body r, r)

unfoldable pub new_registry : ℕ → Registry
new_registry start_port = record {
  mu = false;
  clients = [];
  path_to_client_ids = [];
  available_tcp_port = start_port;
}

pub take_port : Registry → Registry
take_port r = record r { available_tcp_port = increment r.available_tcp_port }

pub next_port : Op ℕ
unfolding take_port
next_port r = returns (r.available_tcp_port, take_port r)

pub no_error : Op ℕ → Op (Result Error ℕ)
no_error op r = do (port, r') ← op r; returns (ok port, r')

unfoldable pub allocate_tcp_port : ClientType → Op (Result Error ℕ)
unfolding with_lock next_port no_error
allocate_tcp_port client_type = with_lock (no_error next_port)

-- "Allocate TCP port if needed"
pub port_for : ClientType → Op (Result Error ℕ)
unfolding allocate_tcp_port
port_for client_type_tcp r = allocate_tcp_port client_type_tcp r
port_for client_type_http r = returns (ok 0, r)

pub store_client : ClientRegistration → Registry → Registry
store_client client r = record r {
  clients = insert client.id client r.clients;
  path_to_client_ids = attach_all client.id r.path_to_client_ids client.paths;
}

pub new_client : List Text → ClientType → Map Text Text → Text → ℕ → ℕ → ClientRegistration
new_client paths client_type metadata client_id now tcp_port = record {
  id = client_id;
  type = client_type;
  paths = paths;
  last_heartbeat = now;
  tcp_port = tcp_port;
  active_tcp_connections = 0;
  status = codes "active";
  metadata = metadata;
}

-- `RegisterClient` under the lock.
pub add_client :
    List Text → ClientType → Map Text Text → Text → ℕ → Op (Result Error ClientRegistration)
unfolding port_for store_client new_client
add_client paths client_type metadata client_id now r = do
  (port, r') ← port_for client_type r
  elim port [
    | err e ↦ returns (err (allocation_failed e), r')
    | ok tcp_port ↦
        let client = new_client paths client_type metadata client_id now tcp_port in
        returns (ok client, store_client client r')
  ]

-- `client_id` is the new UUID.
unfoldable pub register_client :
    List Text → ClientType → Map Text Text → Text → ℕ → Op (Result Error ClientRegistration)
unfolding with_lock add_client
register_client paths client_type metadata client_id now =
    with_lock (add_client paths client_type metadata client_id now)

-- The registrations of the IDs that are registered.
unfoldable pub registrations : Map Text ClientRegistration → List Text → List ClientRegistration
registrations clients [] = []
registrations clients (id ∷ ids) = elim (lookup id clients) [
  | some client ↦ client ∷ registrations clients ids
  | none ↦ registrations clients ids
]

pub find_in : Text → Registry → Result Error (List ClientRegistration)
find_in path r = elim (lookup path r.path_to_client_ids) [
  | none ↦ err (no_clients_found path)
  | some ids ↦
      if length ids == 0 then err (no_clients_found path) else ok (registrations r.clients ids)
]

unfoldable pub find_client_for_path : Text → Op (Result Error (List ClientRegistration))
unfolding with_rlock find_in
find_client_for_path path = with_rlock (find_in path)

-- A change to one client, for the methods that fail if it is not registered.
pub change_client : Text → (ClientRegistration → ClientRegistration) → Op (Result Error (Unit {0}))
change_client client_id change r = elim (lookup client_id r.clients) [
  | none ↦ returns (err (client_not_found client_id), r)
  | some client ↦ returns (ok tt, record r { clients = insert client_id (change client) r.clients })
]

pub hear : ℕ → ClientRegistration → ClientRegistration
hear now client = record client { last_heartbeat = now; status = codes "active" }

unfoldable pub update_heartbeat : Text → ℕ → Op (Result Error (Unit {0}))
unfolding with_lock change_client hear
update_heartbeat client_id now = with_lock (change_client client_id (hear now))

pub mark_inactive : ℕ → ℕ → ClientRegistration → ClientRegistration
mark_inactive interval now client =
    if greater (sub_time now client.last_heartbeat) (double interval)
    then record client { status = codes "inactive" }
    else client

pub mark_all : ℕ → ℕ → Op (Unit {0})
unfolding mark_inactive
mark_all interval now r =
    returns (tt, record r { clients = map_values (mark_inactive interval now) r.clients })

-- One tick of the goroutine that `StartHeartbeatMonitor` starts.
unfoldable pub monitor_tick : ℕ → ℕ → Op (Unit {0})
unfolding with_lock mark_all
monitor_tick interval now = with_lock (mark_all interval now)

-- One round of the loop of `CleanupStaleClients`.
pub sweep : ℕ → ℕ → List Text × Registry → Text → List Text × Registry
sweep timeout now (stale, r) client_id = elim (lookup client_id r.clients) [
  | none ↦ (stale, r)
  | some client ↦
      if greater (sub_time now client.last_heartbeat) timeout
      then (
        stale ++ client_id ∷ [],
        record r {
          clients = delete client_id r.clients;
          path_to_client_ids = detach_all client_id r.path_to_client_ids client.paths;
        },
      )
      else (stale, r)
]

pub sweep_all : ℕ → ℕ → List Text × Registry → List Text → List Text × Registry
unfolding sweep
sweep_all timeout now acc [] = acc
sweep_all timeout now acc (id ∷ ids) = sweep_all timeout now (sweep timeout now acc id) ids

pub clean : ℕ → ℕ → List Text → Op (List Text)
unfolding sweep_all
clean timeout now order r = returns (sweep_all timeout now ([], r) order)

-- `order` is the order in which Go visits the clients.
unfoldable pub cleanup_stale_clients : ℕ → ℕ → List Text → Op (List Text)
unfolding with_lock clean
cleanup_stale_clients timeout now order = with_lock (clean timeout now order)

unfoldable pub client_count : Op ℕ
unfolding with_rlock
client_count = with_rlock (λ r. length r.clients)

-- The map itself, with no lock.
unfoldable pub list_clients : Op (Map Text ClientRegistration)
list_clients r = returns (r.clients, r)

pub gain_connection : ClientRegistration → ClientRegistration
gain_connection client = record client {
  active_tcp_connections = increment client.active_tcp_connections;
}

unfoldable pub increment_tcp_connection : Text → Op (Result Error (Unit {0}))
unfolding with_lock change_client gain_connection
increment_tcp_connection client_id = with_lock (change_client client_id gain_connection)

pub drop_connection : ClientRegistration → ClientRegistration
drop_connection client =
    if greater client.active_tcp_connections 0
    then record client { active_tcp_connections = decrement client.active_tcp_connections }
    else client

unfoldable pub decrement_tcp_connection : Text → Op (Result Error (Unit {0}))
unfolding with_lock change_client drop_connection
decrement_tcp_connection client_id = with_lock (change_client client_id drop_connection)

unfoldable pub get_next_tcp_port : Op ℕ
unfolding with_lock next_port
get_next_tcp_port = with_lock next_port

-- The ID is cut once out of the slice of every path.
pub cut_client : Text → Op (Unit {0})
cut_client client_id r = returns (
  tt,
  record r {
    clients = delete client_id r.clients;
    path_to_client_ids = map_values (erase client_id) r.path_to_client_ids;
  },
)

unfoldable pub remove_client : Text → Op (Unit {0})
unfolding with_lock cut_client
remove_client client_id = with_lock (cut_client client_id)
