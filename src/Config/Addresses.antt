-- ===== src/Config/Addresses.antt =====
-- The addresses that pkg/config/config.go and cmd/server/server.go write, and what
-- cmd/client/main.go makes of them.
use attachcloudip.Common.{ℕ, ◌≡◌, refl, ◌++◌, ok, arith}
use attachcloudip.Common.Text.{Text, codes}
use attachcloudip.Strings.Decimal.{decimal, decimal-lacks, value, value-decimal}
use attachcloudip.Strings.HostPort.{colon, split_host_port}
use attachcloudip.Strings.HostPort.Laws.{IsPart, split_host_port-join}
use attachcloudip.Client.{register_url}
use attachcloudip.Server.Configured.{ConfiguredServer, address}
use attachcloudip.Config.{Config, get_http_server_url}

decimal-IsPart : (n : ℕ) → IsPart (decimal n)
decimal-IsPart n = record {
  no_colon = decimal-lacks colon n (λ d. omega arith);
  no_open = decimal-lacks b'[' n (λ d. omega arith);
  no_close = decimal-lacks b']' n (λ d. omega arith);
}

-- A configuration and a server whose host, with no colon and no bracket, and HTTP port are the same:
-- the address of the server is taken apart into this host and digits that spell this port, and the
-- client that is given the address registers at a URL below that of the configuration.
pub get_http_server_url-address :
    (c : Config) (s : ConfiguredServer)
    → s.config.server.host ≡ c.server.host
    → s.config.server.ports.http ≡ c.server.ports.http
    → IsPart c.server.host
    → (port : Text) × (split_host_port (address s) ≡ ok (c.server.host, port))
      × (value 0 port ≡ c.server.ports.http)
      × (register_url (address s) ≡ get_http_server_url c ++ codes "/register")
unfolding address register_url get_http_server_url
get_http_server_url-address c s e f h = (
  decimal c.server.ports.http,
  rw (e, f)
      (split_host_port-join c.server.host (decimal c.server.ports.http) h
        (decimal-IsPart c.server.ports.http)),
  value-decimal c.server.ports.http,
  rw (e, f) refl,
)
