-- ===== src/Session/Examples.antt =====
-- Sessions of cmd/client/main.go with cmd/server at single inputs.
use attachcloudip.Common.{
  ◌≡◌, ◌≢◌, refl, List, [], ◌∷◌, ◌++◌, true, false, none, some, arith, nat_eq,
}
use attachcloudip.Common.Text.{codes, text_eq}
use attachcloudip.TcpManager.{new_tcp_manager, serving, received, handle_client}
use attachcloudip.Client.{start, register_failed, no_tcp_port}
use attachcloudip.Client.Program.{registered, heartbeat_message}
use attachcloudip.Server.{Server, Request, new_server, tcp_port}
use attachcloudip.Server.Clients.{new_client_manager}
use attachcloudip.Session.{new_session, confirm_gets, server_gets, server_puts, run}
use attachcloudip.Session.Confirming.{receiver_first-unregistered}
use attachcloudip.Session.Coalesced.{handle_client-coalesced}
use attachcloudip.Session.Unreachable.{start-Unreachable}
use attachcloudip.Server.Configured
use attachcloudip.Server.Configured.{ConfiguredServer, serve_configured, serve_all}
use attachcloudip.Session.Sample.{client, u1_IsField, a_IsField, moves, sample}
use attachcloudip.Session.Joining.{post_through, request_of}

overtaken_read : (run 1 (new_session client new_tcp_manager) moves).program.delivered ≢ []
unfolding sample
overtaken_read e = cc

overtaken_waits : (run 1 (new_session client new_tcp_manager) moves).program.confirmation ≡ none
unfolding sample
overtaken_waits = refl

receiver_first-unregistered_example :
    (run 1
      (run 1 (new_session client new_tcp_manager) moves)
      (server_gets 6 ∷ server_puts 6 ∷ confirm_gets ∷ [])).program.confirmation
    ≢ some registered
receiver_first-unregistered_example =
    receiver_first-unregistered 1 client new_tcp_manager moves
      (server_gets 6 ∷ server_puts 6 ∷ confirm_gets ∷ []) u1_IsField a_IsField (omega arith)
      overtaken_read overtaken_waits

handle_client-coalesced_example :
    handle_client new_tcp_manager 1 7
      (serving (codes "u1"))
      (received (heartbeat_message ++ (heartbeat_message ++ [])))
    ≡ some (new_tcp_manager, serving (codes "u1"))
handle_client-coalesced_example = handle_client-coalesced new_tcp_manager 1 7 (codes "u1") []

abbrev server : Server
unfolding new_client_manager
server = record {
  tcpmanager = record { clients = []; ports = tcp_port ∷ []; closed = [] };
  client_manager = new_client_manager;
}

abbrev configured : ConfiguredServer
configured = record {
  config = record {
    server = record {
      host = codes "tunnel";
      ssh = record { port = 22; username = codes "root"; key_path = codes "key" };
      ports = record { http = 9999; grpc = 9001; registration = 9002 };
      routing = record {
        path_matching = record { case_sensitive = false; trailing_slash = [] };
        paths = [];
      };
    };
    client = record {
      id = codes "c1";
      ports = record { http_start = 0; tunnel_start = 0 };
      registration = record { retry_interval = 0; timeout = 0; paths = [] };
      heartbeat = record { interval = 0; timeout = 0 };
    };
  };
}

serving_configured : Configured.start (λ _. true) configured ≡ some new_server
unfolding Configured.start
serving_configured = refl

abbrev requests : List Request
requests = request_of (record { client_id = codes "u2"; paths = codes "/b" ∷ [] }) ∷ []

start-Unreachable_example :
    start
      (post_through (serve_configured (serve_all new_server requests)))
      (λ _. some 1)
      (λ _ _. true)
      (codes "tunnel:9999")
      (codes "/a")
      (codes "u1")
    ≡ register_failed no_tcp_port
start-Unreachable_example =
    start-Unreachable (λ _. true) configured new_server requests (λ _. some 1) (λ _ _. true)
      (codes "tunnel:9999") (codes "/a") (codes "u1") serving_configured (λ e. cc)
