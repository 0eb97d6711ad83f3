-- ===== src/TcpManager.antt =====
-- cmd/server/tcpmanager.go: the table of clients, and one handler for each connection. Connections
-- are numbers, given out by the listener. What a connection reads and whether a write succeeds comes
-- from the network, as events. A handler's step ends where it waits for the network or has used the
-- table once, so that the steps of several handlers interleave as their goroutines do.
pub mod Table
pub mod Agree
pub mod Messages
pub mod Registration
pub mod Serving
mod Examples
pub mod Handlers
pub mod System
use attachcloudip.Common.{
  ℕ, suc, List, [], ◌∷◌, ◌++◌, Bool, true, false, ◌||◌, Option, none, some, if◌then◌else◌, ◌==◌,
  nat_eq, length, Result, ok, err,
}
use attachcloudip.Common.Map.{Map, lookup, insert, delete}
use attachcloudip.Common.Text.{Text, codes, text_eq}
use attachcloudip.Strings.{trim_space}
use attachcloudip.Strings.Parts.{split, remove_all}

pub record ClientInfo : Type 0 where
  pub conn : ℕ
  pub path : Text
  pub client_id : Text
  pub last_active : ℕ

-- The listener is the network's. `closed` lists the connections on which `Close` was called.
pub record TcpManager : Type 0 where
  pub clients : Map Text ClientInfo
  pub ports : List ℕ
  pub closed : List ℕ

unfoldable pub new_tcp_manager : TcpManager
new_tcp_manager = record { clients = []; ports = []; closed = [] }

-- `StartListener`, where `net.Listen` answers `listens`.
unfoldable pub start_listener : TcpManager → ℕ → Bool → Bool × TcpManager
start_listener m port listens =
    if listens then (true, record m { ports = m.ports ++ port ∷ [] }) else (false, m)

unfoldable pub register_client : TcpManager → Text → Text → ℕ → ℕ → TcpManager
register_client m client_id path conn now = record m { clients = insert client_id client m.clients }
  where
    client : ClientInfo
    client = record { conn = conn; path = path; client_id = client_id; last_active = now }

unfoldable pub update_client_activity : TcpManager → Text → ℕ → TcpManager
update_client_activity m client_id now = elim (lookup client_id m.clients) [
  | none ↦ m
  | some client ↦ record m {
    clients = insert client_id (record client { last_active = now }) m.clients;
  }
]

unfoldable pub remove_client : TcpManager → Text → TcpManager
remove_client m client_id = elim (lookup client_id m.clients) [
  | none ↦ m
  | some client ↦ record m { clients = delete client_id m.clients; closed = client.conn ∷ m.closed }
]

abbrev pub bar : ℕ
bar = b'|'

abbrev pub newline : ℕ
newline = 10

-- The ID and the path of a first message that `Split` has cut.
unfoldable pub from_parts : List Text → Option (Text × Text)
from_parts (first ∷ second ∷ []) =
    let client_id = trim_space first in
    let path = remove_all newline (trim_space second) in
    if (length client_id == 0) || (length path == 0) then none else some (client_id, path)
from_parts _ = none

-- The registration message "clientID|path", as `handleClient` takes it apart.
unfoldable pub parse_registration : Text → Option (Text × Text)
unfolding from_parts
parse_registration message = from_parts (split (trim_space message) bar)

-- Where a handler waits: for the first message, for the write of the confirmation, for a message, for
-- the write of an acknowledgement; or it has returned.
pub data Phase : Type 0 where
  awaiting : Phase
  confirming : Text → Phase
  serving : Text → Phase
  acking : Text → Phase
  finished : Phase

-- What the network answers to the handler's read or write.
pub data Event : Type 0 where
  received : Text → Event
  read_failed written write_failed : Event

unfoldable pub close : TcpManager → ℕ → TcpManager
close m conn = record m { closed = conn ∷ m.closed }

-- `return`, with the deferred `c.Close()`.
unfoldable pub leave : TcpManager → ℕ → Option (TcpManager × Phase)
unfolding close
leave m conn = some (close m conn, finished)

-- `m.RemoveClient(clientID); return`
unfoldable pub give_up : TcpManager → ℕ → Text → Option (TcpManager × Phase)
unfolding leave
give_up m conn client_id = leave (remove_client m client_id) conn

unfoldable pub first_message :
    TcpManager → ℕ → ℕ → Option (Text × Text) → Option (TcpManager × Phase)
unfolding leave
first_message m conn now none = leave m conn
first_message m conn now (some (client_id, path)) =
    some (register_client m client_id path conn now, confirming client_id)

unfoldable pub next_message : TcpManager → Text → ℕ → Text → Option (TcpManager × Phase)
next_message m client_id now message =
    if message == codes "heartbeat"
    then some (update_client_activity m client_id now, acking client_id)
    else some (m, serving client_id)

-- A step of `handleClient` on the connection; `none` where the handler does not wait for the event.
unfoldable pub handle_client : TcpManager → ℕ → ℕ → Phase → Event → Option (TcpManager × Phase)
unfolding first_message next_message give_up leave
handle_client m conn now awaiting (received text) =
    first_message m conn now (parse_registration text)
handle_client m conn now awaiting read_failed = leave m conn
handle_client m conn now (confirming id) written = some (m, serving id)
handle_client m conn now (confirming id) write_failed = give_up m conn id
handle_client m conn now (serving id) (received text) = next_message m id now (trim_space text)
handle_client m conn now (serving id) read_failed = give_up m conn id
handle_client m conn now (acking id) written = some (m, serving id)
handle_client m conn now (acking id) write_failed = give_up m conn id
handle_client m conn now _ _ = none

-- `GetClients`, where `order` is the order in which Go visits the table.
unfoldable pub get_clients : TcpManager → List Text → List ClientInfo
get_clients m [] = []
get_clients m (id ∷ ids) = elim (lookup id m.clients) [
  | some client ↦ client ∷ get_clients m ids
  | none ↦ get_clients m ids
]

pub data Error : Type 0 where
  send_failed receive_failed no_client_found : Text → Error

-- The first client of the list at the path.
unfoldable pub client_at : List ClientInfo → Text → Option ClientInfo
client_at [] path = none
client_at (client ∷ clients) path =
    if client.path == path then some client else client_at clients path

-- `writes conn text` says whether the write succeeds. The answer is the error and what was written.
unfoldable pub send_message_to_client :
    TcpManager → List Text → (ℕ → Text → Bool) → Text → Text → Result Error (ℕ × Text)
send_message_to_client m order writes path message = elim (client_at (get_clients m order) path) [
  | none ↦ err (no_client_found path)
  | some client ↦
      if writes client.conn (message ++ newline ∷ [])
      then ok (client.conn, message ++ newline ∷ [])
      else err (send_failed path)
]

-- `reads conn` is what the read of the connection gives, if it does not fail.
unfoldable pub receive_message_from_client :
    TcpManager → List Text → (ℕ → Option Text) → Text → Result Error Text
receive_message_from_client m order reads path = elim (client_at (get_clients m order) path) [
  | none ↦ err (no_client_found path)
  | some client ↦ elim (reads client.conn) [
    | some text ↦ ok (trim_space text)
    | none ↦ err (receive_failed path)
  ]
]
