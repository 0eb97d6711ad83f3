-- ===== src/Server.antt =====
-- cmd/server/handler.go and the routes of cmd/server/main.go. A request comes with its body already
-- decoded, if the JSON decoder accepts it, and the response's body is what is encoded. The path is one
-- that the multiplexer does not redirect.
pub mod Clients
pub mod Config
pub mod Configured
pub mod Handlers
mod Examples
use attachcloudip.Common.{
  ℕ, List, [], Bool, true, false, Option, none, some, map, if◌then◌else◌, ◌==◌,
}
use attachcloudip.Common.Text.{Text, codes, text_eq}
use attachcloudip.TcpManager.{ClientInfo, TcpManager, new_tcp_manager, start_listener, get_clients}
use attachcloudip.Server.Clients.{Client, ClientManager, new_client_manager, register_client}

-- The two variables of the package.
pub record Server : Type 0 where
  pub tcpmanager : TcpManager
  pub client_manager : ClientManager

unfoldable pub new_server : Server
new_server = record { tcpmanager = new_tcp_manager; client_manager = new_client_manager }

abbrev pub tcp_port : ℕ
tcp_port = 9998

listening : Bool × TcpManager → Option Server
listening (true, m) = some (record { tcpmanager = m; client_manager = new_client_manager })
listening (false, m) = none

-- `main` up to its HTTP server, where `net.Listen` answers `listens`; `none` is a fatal error.
unfoldable pub start_server : Bool → Option Server
unfolding listening
start_server listens = listening (start_listener new_tcp_manager tcp_port listens)

pub record RegisterBody : Type 0 where
  pub client_id : Text
  pub paths : List Text

pub record Request : Type 0 where
  pub method : Text
  pub path : Text
  pub body : Option RegisterBody

pub record ClientResponse : Type 0 where
  pub id : Text
  pub path : Text
  pub last_active : ℕ

pub data Content : Type 0 where
  empty decode_failure not_found : Content
  plain : Text → Content
  ports : List ℕ → Content
  client_list : List ClientResponse → Content

pub record Response : Type 0 where
  pub status : ℕ
  pub content : Content

abbrev pub answer : ℕ → Content → Response
answer status content = record { status = status; content = content }

unfoldable pub health_check : Response
health_check = answer 200 (plain (codes "OK"))

unfoldable pub accept : Server → RegisterBody → Response × Server
accept s body = (
  answer 200 (ports s.tcpmanager.ports),
  record s {
    client_manager =
        register_client s.client_manager
          (record { client_id = body.client_id; paths = body.paths; protocol = [] });
  },
)

-- `RegisterClient` of the handlers, by whether the method is POST and what the body decodes to.
unfoldable pub register_with : Server → Bool → Option RegisterBody → Response × Server
unfolding accept
register_with s false body = (answer 405 empty, s)
register_with s true none = (answer 400 decode_failure, s)
register_with s true (some body) = accept s body

unfoldable pub handle_register : Server → Request → Response × Server
unfolding register_with
handle_register s req = register_with s (req.method == codes "POST") req.body

unfoldable pub client_response : ClientInfo → ClientResponse
client_response client = record {
  id = client.client_id;
  path = client.path;
  last_active = client.last_active;
}

unfoldable pub list_clients : Server → List Text → Response
unfolding client_response
list_clients s order =
    answer 200 (client_list (map client_response (get_clients s.tcpmanager order)))

-- The routes; `order` is the order in which Go visits the table of the TCP manager.
unfoldable pub serve : Server → List Text → Request → Response × Server
unfolding health_check handle_register list_clients
serve s order req =
    if req.path == codes "/health"
    then (health_check, s)
    else if req.path == codes "/healthz"
    then (health_check, s)
    else if req.path == codes "/register"
    then handle_register s req
    else if req.path == codes "/clients"
    then (list_clients s order, s)
    else (answer 404 not_found, s)
