-- ===== src/Server/Configured/Routes.antt =====
-- The server of cmd/server/server.go beside that of cmd/server/main.go.
use attachcloudip.Common.{
  ◌≡◌, refl, ◌∙◌, List, [], ◌∷◌, Bool, true, false, Option, none, some, if◌then◌else◌, ◌==◌, arith,
  nat_eq,
}
use attachcloudip.Common.Text.{Text, codes, text_eq, text_beq_iff}
use attachcloudip.TcpManager.{new_tcp_manager}
use attachcloudip.Server.{
  Server, Request, RegisterBody, not_found, answer, accept, register_with, handle_register, serve,
  new_server,
}
use attachcloudip.Server.Configured.{ConfiguredServer, serve_configured, start, serve_all}

-- The server has the routes of `main` except for the list of clients.
pub serve_configured-serve :
    (s : Server) (order : List Text) (req : Request)
    → serve_configured s req
      ≡ (if req.path == codes "/clients" then (answer 404 not_found, s) else serve s order req)
unfolding serve_configured serve
serve_configured-serve s order req = ground (
  arith,
  text_beq_iff req.path (codes "/health"),
  text_beq_iff req.path (codes "/healthz"),
  text_beq_iff req.path (codes "/register"),
  text_beq_iff req.path (codes "/clients"),
)

register_with-tcpmanager :
    (s : Server) (b : Bool) (body : Option RegisterBody)
    → (register_with s b body).1.tcpmanager ≡ s.tcpmanager
unfolding register_with accept
register_with-tcpmanager s false body = refl
register_with-tcpmanager s true none = refl
register_with-tcpmanager s true (some body) = refl

serve_configured-tcpmanager :
    (s : Server) (req : Request) → (serve_configured s req).1.tcpmanager ≡ s.tcpmanager
unfolding serve_configured handle_register
serve_configured-tcpmanager s req =
    ground (arith, register_with-tcpmanager s (req.method == codes "POST") req.body)

pub serve_all-tcpmanager :
    (s : Server) (reqs : List Request) → (serve_all s reqs).tcpmanager ≡ s.tcpmanager
unfolding serve_all
serve_all-tcpmanager s [] = refl
serve_all-tcpmanager s (req ∷ reqs) =
    serve_all-tcpmanager (serve_configured s req).1 reqs ∙ serve_configured-tcpmanager s req

pub start-ports :
    (listens : Text → Bool) (c : ConfiguredServer) (s : Server)
    → start listens c ≡ some s
    → s.tcpmanager.ports ≡ []
unfolding start new_server new_tcp_manager
start-ports listens c s e = ground (arith, e)
