-- ===== src/Client.antt =====
-- cmd/client/main.go: the registration of a client by HTTP and its TCP connection. What the network
-- does is an argument: `post` answers a POST with the status and the ports that the body decodes to,
-- `dial` opens a connection, `writes` says whether a write succeeds. A struct of strings can always be
-- written as JSON.
pub mod Registering
pub mod Starting
pub mod Loops
pub mod Program
mod Examples
use attachcloudip.Common.{
  ℕ, ◌∷◌, ◌++◌, [], List, Bool, Option, none, some, if◌then◌else◌, ◌==◌, nat_eq, length, Result, ok,
  err,
}
use attachcloudip.Common.Text.{Text, codes, text_eq}
use attachcloudip.Strings.Decimal.{decimal}
use attachcloudip.Strings.HostPort.{AddressError, colon, split_host_port}
use attachcloudip.TcpManager.{bar, newline}

pub record Client : Type 0 where
  pub id : Text
  pub tcp_conn : Option ℕ
  pub tcp_port : ℕ
  pub server_host : Text
  pub path : Text

pub data Error : Type 0 where
  failed_to_send_request failed_to_decode_response no_tcp_port : Error
  registration_failed : ℕ → Error
  failed_to_parse_address : AddressError → Error
  failed_to_connect failed_to_send_registration : Error

-- The JSON of the registration.
pub record Payload : Type 0 where
  pub client_id : Text
  pub paths : List Text

pub record HttpAnswer : Type 0 where
  pub status : ℕ
  pub ports : Option (List ℕ)

abbrev pub Post : Type 0
Post = Text → Payload → Option HttpAnswer

unfoldable pub register_url : Text → Text
register_url server_addr = codes "http://" ++ (server_addr ++ codes "/register")

new_client : Text → Text → ℕ → Result AddressError (Text × Text) → Result Error Client
new_client client_id path port (err e) = err (failed_to_parse_address e)
new_client client_id path port (ok (host, _)) =
    ok
      (record { id = client_id; tcp_conn = none; tcp_port = port; server_host = host; path = path })

-- The ports that the answer decodes to; the first is taken.
from_ports : Text → Text → Text → Option (List ℕ) → Result Error Client
unfolding new_client
from_ports server_addr client_id path none = err failed_to_decode_response
from_ports server_addr client_id path (some []) = err no_tcp_port
from_ports server_addr client_id path (some (port ∷ ports)) =
    new_client client_id path port (split_host_port server_addr)

from_answer : Text → Text → Text → Option HttpAnswer → Result Error Client
unfolding from_ports
from_answer server_addr client_id path none = err failed_to_send_request
from_answer server_addr client_id path (some answer) =
    if answer.status == 200
    then from_ports server_addr client_id path answer.ports
    else err (registration_failed answer.status)

unfoldable pub register_client : Post → Text → Text → Text → Result Error Client
unfolding from_answer register_url
register_client post server_addr client_id path =
    from_answer server_addr client_id path
      (post (register_url server_addr) (record { client_id = client_id; paths = path ∷ [] }))

-- `fmt.Sprintf("%s|%s\n", c.ID, c.path)`, which `ConnectTCP` sends.
unfoldable pub registration_message : Text → Text → Text
registration_message id path = (id ++ bar ∷ path) ++ newline ∷ []

-- `fmt.Sprintf("%s:%d", c.serverHost, c.TCPPort)`
unfoldable pub dial_address : Client → Text
dial_address c = c.server_host ++ (colon ∷ decimal c.tcp_port)

send_registration : (ℕ → Text → Bool) → Client → ℕ → Result Error (Unit {0}) × Client
unfolding registration_message
send_registration writes c conn =
    if writes conn (registration_message c.id c.path)
    then (ok tt, record c { tcp_conn = some conn })
    else (err failed_to_send_registration, record c { tcp_conn = some conn })

-- `ConnectTCP` up to the start of its goroutine.
unfoldable pub connect_tcp :
    (Text → Option ℕ) → (ℕ → Text → Bool) → Client → Result Error (Unit {0}) × Client
unfolding send_registration dial_address
connect_tcp dial writes c = elim (dial (dial_address c)) [
  | none ↦ (err failed_to_connect, c)
  | some conn ↦ send_registration writes c conn
]

-- How `main` goes on from its flags.
pub data Start : Type 0 where
  path_required : Start
  register_failed connect_failed : Error → Start
  started : Client → Start

connected : Result Error (Unit {0}) × Client → Start
connected (ok done, c) = started c
connected (err e, c) = connect_failed e

connect_registered : (Text → Option ℕ) → (ℕ → Text → Bool) → Result Error Client → Start
unfolding connect_tcp connected
connect_registered dial writes (err e) = register_failed e
connect_registered dial writes (ok c) = connected (connect_tcp dial writes c)

-- `main`; the flag "-server" has a default, "-path" has none. The client's ID is a new UUID.
unfoldable pub start : Post → (Text → Option ℕ) → (ℕ → Text → Bool) → Text → Text → Text → Start
unfolding connect_registered register_client
start post dial writes server_addr watch_path uuid =
    if length watch_path == 0
    then path_required
    else connect_registered dial writes (register_client post server_addr uuid watch_path)
