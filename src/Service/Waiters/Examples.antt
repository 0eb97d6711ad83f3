-- ===== src/Service/Waiters/Examples.antt =====
-- A request of pkg/service/tunnel_service.go at a single state.
use attachcloudip.Common.{List, [], ◌∷◌, some, nat_eq}
use attachcloudip.Common.Text.{codes, text_eq}
use attachcloudip.Service.Types.{ClientInfo, StreamRequest, StreamRequestType}
use attachcloudip.Service.Tunnel.{TunnelService, new_client}
use attachcloudip.Service.Waiters.{answered}
use attachcloudip.Service.Waiters.System.{run, new_system, Move, starts, responds, wakes}
use attachcloudip.Service.Waiters.Ownership.{Owned}
use attachcloudip.Service.Waiters.Owners.{run-new_system-Owned}

abbrev client : ClientInfo
unfolding new_client
client = new_client (codes "c1") (codes "s1") 7 (codes "http") 9000

abbrev service : TunnelService
service = record { clients = (codes "c1", client) ∷ []; path_clients = []; available_ports = [] }

abbrev answer : StreamRequest
answer = record {
  type = StreamRequestType.http_response;
  request_id = codes "r1";
  request = some (record { method = []; path = []; headers = []; body = 104 ∷ 105 ∷ [] });
  protocol = [];
}

abbrev moves : List Move
moves =
    starts service (codes "c1") (codes "r1")
    ∷ starts service (codes "c2") (codes "r2")
    ∷ responds answer
    ∷ wakes 0 answered
    ∷ []

run-new_system-Owned_example : Owned (run new_system moves)
run-new_system-Owned_example = run-new_system-Owned moves
