-- ===== src/Config.antt =====
-- pkg/config/config.go: the configuration of the tunnel service, whose numbers are not negative.
-- Reading a file and decoding YAML are arguments.
pub mod Addresses
mod Examples
use attachcloudip.Common.{ℕ, ◌∷◌, ◌++◌, Bool, Option, none, some, List, Result, ok, err}
use attachcloudip.Common.Text.{Text, codes}
use attachcloudip.Strings.Decimal.{decimal}
use attachcloudip.Strings.HostPort.{colon}

pub record SshConfig : Type 0 where
  pub port : ℕ
  pub username : Text
  pub key_path : Text

pub record PortConfig : Type 0 where
  pub http : ℕ
  pub grpc : ℕ
  pub registration : ℕ

pub record ServerConfig : Type 0 where
  pub host : Text
  pub ssh : SshConfig
  pub ports : PortConfig

pub record ClientConfig : Type 0 where
  pub id : Text

pub data ConnectionOptionsProtocol : Type 0 where
  http tcp : ConnectionOptionsProtocol

pub record ConnectionOptions : Type 0 where
  pub protocol : ConnectionOptionsProtocol
  pub buffer_size : ℕ
  pub keep_alive : Bool
  pub keep_alive_interval : ℕ
  pub idle_timeout : ℕ

pub record Config : Type 0 where
  pub server : ServerConfig
  pub client : ClientConfig
  pub connection_opts : ConnectionOptions

-- `fmt.Sprintf("http://%s:%d", c.Server.Host, c.Server.Ports.HTTP)`
unfoldable pub get_http_server_url : Config → Text
get_http_server_url c = codes "http://" ++ (c.server.host ++ (colon ∷ decimal c.server.ports.http))

pub data Error : Type 0 where
  failed_to_read failed_to_parse : Error

from_data : Option Config → Result Error Config
from_data none = err failed_to_parse
from_data (some config) = ok config

-- `LoadConfig`, with `ioutil.ReadFile` and `yaml.Unmarshal` into an empty configuration.
unfoldable pub load_config :
    (Text → Option (List ℕ)) → (List ℕ → Option Config) → Text → Result Error Config
unfolding from_data
load_config read_file unmarshal path = elim (read_file path) [
  | none ↦ err failed_to_read
  | some data_read ↦ from_data (unmarshal data_read)
]
