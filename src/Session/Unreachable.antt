-- ===== src/Session/Unreachable.antt =====
-- The client of cmd/client/main.go against the server of cmd/server/server.go.
use attachcloudip.Common.{ℕ, ◌≡◌, ◌≢◌, ap, ◌∙◌, List, [], Bool, Option, some, nat_eq}
use attachcloudip.Common.Text.{Text, text_eq, text_beq}
use attachcloudip.Client
use attachcloudip.Client.{Post, register_failed, no_tcp_port}
use attachcloudip.Client.Starting.{start-no_tcp_port}
use attachcloudip.Client.Registering.{Answered}
use attachcloudip.Server.{Server, Request, accept, register_with, handle_register}
use attachcloudip.Server.Configured.{ConfiguredServer, serve_configured, start, serve_all}
use attachcloudip.Server.Configured.Routes.{start-ports, serve_all-tcpmanager}
use attachcloudip.Session.Joining.{post_through}

no_ports-Answered :
    (s : Server) (addr id path : Text)
    → s.tcpmanager.ports ≡ []
    → Answered (post_through (serve_configured s)) addr id path 200 (some [])
unfolding serve_configured handle_register register_with accept text_beq
no_ports-Answered s addr id path e = record {
  answered = ap (λ (l : List ℕ). some (record { status = 200; ports = some l })) e;
}

-- A server that `Server.Start` runs never has a TCP port to give: whatever requests it has answered,
-- a client that is started against it, for a path that is not empty, stops, since the answer to its
-- registration names no port.
pub start-Unreachable :
    (listens : Text → Bool) (configured : ConfiguredServer) (s : Server) (reqs : List Request)
    (dial : Text → Option ℕ) (writes : ℕ → Text → Bool) (addr path uuid : Text)
    → start listens configured ≡ some s
    → path ≢ []
    → Client.start (post_through (serve_configured (serve_all s reqs))) dial writes addr path uuid
      ≡ register_failed no_tcp_port
start-Unreachable listens configured s reqs dial writes addr path uuid up n =
    start-no_tcp_port _ dial writes addr path uuid n (
      no_ports-Answered (serve_all s reqs) addr uuid path
        (ap (λ m. m.ports) (serve_all-tcpmanager s reqs) ∙ start-ports listens configured s up))
