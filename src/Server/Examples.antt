-- ===== src/Server/Examples.antt =====
-- The routes of cmd/server at single requests.
use attachcloudip.Common.{
  ◌≡◌, ◌↔◌, refl, List, [], ◌∷◌, some, none, In, inl, inr, Bool-cases, ◌==◌, arith, if◌then◌else◌,
  ◌≢◌,
}
use attachcloudip.Common.Map.{lookup}
use attachcloudip.Common.Text.{Text, codes, text_eq, text_beq_iff}
use attachcloudip.TcpManager.{ClientInfo}
use attachcloudip.TcpManager.Table.{entry}
use attachcloudip.TcpManager.Messages.{Visits}
use attachcloudip.Server.Clients.{new_client_manager}
use attachcloudip.Server.{Server, Request, ClientResponse, answer, client_list, not_found, serve}
use attachcloudip.Server.Configured.{serve_configured}
use attachcloudip.Server.Configured.Routes.{serve_configured-serve}
use attachcloudip.Server.Handlers.{Answers, IsEntry, serve-Answers, serve-lists}

abbrev server : Server
unfolding new_client_manager
server = record {
  tcpmanager = record {
    clients = (codes "c1", entry (codes "c1") (codes "/api") 2 20) ∷ [];
    ports = 9998 ∷ [];
    closed = [];
  };
  client_manager = new_client_manager;
}

abbrev registration : Request
registration = record {
  method = codes "POST";
  path = codes "/register";
  body = some (record { client_id = codes "c1"; paths = codes "/api" ∷ [] });
}

serve-Answers_example :
    Answers server
      (registration.method == codes "POST")
      registration.body
      (serve server [] registration)
serve-Answers_example = serve-Answers server [] registration refl

serve_configured-serve_example : serve_configured server registration ≡ (
    if registration.path == codes "/clients"
    then (answer 404 not_found, server)
    else serve server [] registration)
serve_configured-serve_example = serve_configured-serve server [] registration

abbrev listing : Request
listing = record { method = codes "GET"; path = codes "/clients"; body = none }

none_not_some : {c : ClientInfo} → none ≢ some c
none_not_some e = cc

table :
    (id : Text)
    → lookup id server.tcpmanager.clients
      ≡ (if codes "c1" == id then some (entry (codes "c1") (codes "/api") 2 20) else none)
unfolding lookup server
table id = refl

server-Visits : Visits server.tcpmanager (codes "c1" ∷ [])
server-Visits id c e = elim (Bool-cases (codes "c1" == id)) [
  | inl h ↦ inl ((text_beq_iff (codes "c1") id).0 h)
  | inr h ↦ absurd (none_not_some {c = c} (ground (arith, h, e, table id)))
]

serve-lists_example :
    (l : List ClientResponse) × (serve server (codes "c1" ∷ []) listing
      ≡ (answer 200 (client_list l), server))
    × ((r : ClientResponse) → In r l ↔ IsEntry server.tcpmanager r)
serve-lists_example = serve-lists server (codes "c1" ∷ []) listing refl server-Visits
