-- ===== src/Server/Clients.antt =====
-- cmd/server/clients.go and the client of cmd/server/types.go: the clients that registered by HTTP.
use attachcloudip.Common.{List, [], Option}
use attachcloudip.Common.Map.{Map, lookup, insert, delete}
use attachcloudip.Common.Text.{Text, text_eq}

pub record Client : Type 0 where
  pub client_id : Text
  pub paths : List Text
  pub protocol : Text

pub record ClientManager : Type 0 where
  pub clients : Map Text Client

unfoldable pub new_client_manager : ClientManager
new_client_manager = record { clients = [] }

unfoldable pub register_client : ClientManager → Client → ClientManager
register_client m client = record { clients = insert client.client_id client m.clients }

unfoldable pub remove_client : ClientManager → Text → ClientManager
remove_client m client_id = record { clients = delete client_id m.clients }

-- A nil pointer is `none`.
unfoldable pub get_client : ClientManager → Text → Option Client
get_client m client_id = lookup client_id m.clients
