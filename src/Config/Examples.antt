-- ===== src/Config/Examples.antt =====
-- Configurations for one host.
use attachcloudip.Common.{◌≡◌, refl, ◌++◌, [], some, none, false, ok, err, arith}
use attachcloudip.Common.Text.{Text, codes}
use attachcloudip.Strings.Decimal.{decimal, value}
use attachcloudip.Strings.HostPort.{split_host_port}
use attachcloudip.Client.{register_url}
use attachcloudip.Server.Config
use attachcloudip.Server.Configured.{ConfiguredServer, address}
use attachcloudip.Config.{
  ServerConfig, ConnectionOptionsProtocol, Error, failed_to_parse, get_http_server_url, load_config,
}
use attachcloudip.Config.Addresses.{get_http_server_url-address}

abbrev config : attachcloudip.Config.Config
config = record {
  server = record {
    host = codes "tunnel";
    ssh = record { port = 22; username = codes "root"; key_path = codes "key" };
    ports = record { http = 9999; grpc = 9001; registration = 9002 };
  };
  client = record { id = codes "c1" };
  connection_opts = record {
    protocol = ConnectionOptionsProtocol.http;
    buffer_size = 0;
    keep_alive = false;
    keep_alive_interval = 0;
    idle_timeout = 0;
  };
}

server_url : get_http_server_url config ≡ codes "http://tunnel:9999"
unfolding get_http_server_url decimal
server_url = refl

bad_yaml : load_config (λ _. some []) (λ _. none) (codes "config.yaml") ≡ err failed_to_parse
unfolding load_config
bad_yaml = refl

abbrev server_config : Config.Config
server_config = record {
  server = record {
    host = codes "tunnel";
    ssh = record { port = 22; username = codes "root"; key_path = codes "key" };
    ports = record { http = 9999; grpc = 9001; registration = 9002 };
    routing = record {
      path_matching = record { case_sensitive = false; trailing_slash = [] };
      paths = [];
    };
  };
  client = record {
    id = codes "c1";
    ports = record { http_start = 0; tunnel_start = 0 };
    registration = record { retry_interval = 0; timeout = 0; paths = [] };
    heartbeat = record { interval = 0; timeout = 0 };
  };
}

abbrev server : ConfiguredServer
server = record { config = server_config }

get_http_server_url-address_example :
    (port : Text) × (split_host_port (address server) ≡ ok (codes "tunnel", port))
    × (value 0 port ≡ 9999)
    × (register_url (address server) ≡ get_http_server_url config ++ codes "/register")
get_http_server_url-address_example =
    get_http_server_url-address config server refl refl
      (record { no_colon = omega arith; no_open = omega arith; no_close = omega arith })
