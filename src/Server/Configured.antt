-- ===== src/Server/Configured.antt =====
-- cmd/server/server.go: the server that `Server.Start` runs from a configuration. It has the package's
-- two variables and does not start the TCP manager's listener.
pub mod Routes
use attachcloudip.Common.{ℕ, ◌∷◌, ◌++◌, Bool, Option, none, some, if◌then◌else◌, ◌==◌, List, []}
use attachcloudip.Common.Text.{Text, codes, text_eq}
use attachcloudip.Strings.Decimal.{decimal}
use attachcloudip.Strings.HostPort.{colon}
use attachcloudip.Server.{
  Server, Request, Response, not_found, answer, health_check, handle_register, new_server,
}
use attachcloudip.Server.Config.{Config}

-- The type `Server` of the source.
pub record ConfiguredServer : Type 0 where
  pub config : Config

unfoldable pub new_configured_server : Config → ConfiguredServer
new_configured_server config = record { config = config }

-- `fmt.Sprintf("%s:%d", s.config.Server.Host, s.config.Server.Ports.HTTP)`
unfoldable pub address : ConfiguredServer → Text
address s = s.config.server.host ++ (colon ∷ decimal s.config.server.ports.http)

unfoldable pub serve_configured : Server → Request → Response × Server
unfolding health_check handle_register
serve_configured s req =
    if req.path == codes "/health"
    then (health_check, s)
    else if req.path == codes "/register"
    then handle_register s req
    else if req.path == codes "/healthz"
    then (health_check, s)
    else (answer 404 not_found, s)

-- What serves at the address, where `listens` says whether `http.ListenAndServe` can listen there; with
-- `none` the program ends, and so it does when serving ends.
unfoldable pub start : (Text → Bool) → ConfiguredServer → Option Server
unfolding address new_server
start listens s = if listens (address s) then some new_server else none

-- The requests that a server has answered, in their order.
unfoldable pub serve_all : Server → List Request → Server
serve_all s [] = s
serve_all s (req ∷ reqs) = serve_all (serve_configured s req).1 reqs
