-- ===== src/Server/Config.antt =====
-- The configuration of cmd/server/types.go, as it is decoded from YAML; its numbers are not negative.
use attachcloudip.Common.{ℕ, Bool, List}
use attachcloudip.Common.Text.{Text}

pub record SshConfig : Type 0 where
  pub port : ℕ
  pub username : Text
  pub key_path : Text

pub record PortConfig : Type 0 where
  pub http : ℕ
  pub grpc : ℕ
  pub registration : ℕ

pub record PathMatching : Type 0 where
  pub case_sensitive : Bool
  pub trailing_slash : Text

pub record RoutedPath : Type 0 where
  pub pattern : Text
  pub description : Text
  pub required_auth : Bool

pub record Routing : Type 0 where
  pub path_matching : PathMatching
  pub paths : List RoutedPath

pub record ServerConfig : Type 0 where
  pub host : Text
  pub ssh : SshConfig
  pub ports : PortConfig
  pub routing : Routing

pub record ClientPorts : Type 0 where
  pub http_start : ℕ
  pub tunnel_start : ℕ

pub record Metadata : Type 0 where
  pub version : Text
  pub provider : Text

pub record ClientPath : Type 0 where
  pub path : Text
  pub description : Text
  pub metadata : List Metadata

pub record Registration : Type 0 where
  pub retry_interval : ℕ
  pub timeout : ℕ
  pub paths : List ClientPath

pub record Heartbeat : Type 0 where
  pub interval : ℕ
  pub timeout : ℕ

pub record ClientConfig : Type 0 where
  pub id : Text
  pub ports : ClientPorts
  pub registration : Registration
  pub heartbeat : Heartbeat

pub record Config : Type 0 where
  pub server : ServerConfig
  pub client : ClientConfig
