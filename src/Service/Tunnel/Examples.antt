-- ===== src/Service/Tunnel/Examples.antt =====
-- The tunnel service at single states.
use attachcloudip.Common.{
  ℕ, ◌+◌, ◌≡◌, refl, List, [], ◌∷◌, some, returns, panics, ok, count, length, nat_eq, arith,
}
use attachcloudip.Common.Text.{Text, codes, text_eq}
use attachcloudip.Service.Types.{HttpRequest, StreamRequest, StreamRequestType}
use attachcloudip.Service.Tunnel.{
  TunnelService, check_request, commit_client, registered, new_tunnel_service,
}
use attachcloudip.Service.Tunnel.Branches.{IsComplete}
use attachcloudip.Service.Tunnel.Guarantees.{IsRegistered, register_accepts}
use attachcloudip.Service.Tunnel.History.{
  Call, registers, removes, run, Sound, run-new_tunnel_service-Sound, accepted_calls,
  accepted_calls-run, register_race,
}

abbrev get_stocks : HttpRequest
get_stocks = record { method = codes "GET"; path = codes "/stocks/"; headers = []; body = [] }

abbrev request : Text → StreamRequest
request id = record {
  type = StreamRequestType.http_request;
  request_id = id;
  request = some get_stocks;
  protocol = codes "http";
}

request-IsComplete : (c : ℕ) (id : Text) → IsComplete (request (c ∷ id)) get_stocks
request-IsComplete c id = record { named = λ e. cc; given = refl; path_given = λ e. cc }

abbrev start : TunnelService
start = new_tunnel_service (8001 ∷ 8002 ∷ [])

start_ports : start.available_ports ≡ 8001 ∷ 8002 ∷ []
unfolding new_tunnel_service
start_ports = refl

register_accepts_example :
    (s' : TunnelService) × IsRegistered start
      (codes "s1")
      5
      (request (codes "c1"))
      (codes "/stocks/")
      8001
      s'
    × (s'.available_ports ≡ 8002 ∷ [])
register_accepts_example =
    register_accepts start (codes "s1") 5 (request (codes "c1")) get_stocks 8001 (8002 ∷ [])
      (request-IsComplete b'c' (codes "1")) start_ports

abbrev calls : List Call
calls =
    registers (codes "s1") 5 (request (codes "c1"))
    ∷ removes (codes "c1")
    ∷ registers (codes "s2") 6 (request (codes "c1"))
    ∷ []

run-new_tunnel_service-Sound_example : Sound (run (new_tunnel_service (8001 ∷ 8002 ∷ [])) calls)
unfolding count
run-new_tunnel_service-Sound_example =
    run-new_tunnel_service-Sound (8001 ∷ 8002 ∷ []) calls (λ p. ground arith)

accepted_calls-run_example :
    accepted_calls start calls + length (run start calls).available_ports
    ≡ length start.available_ports
accepted_calls-run_example = accepted_calls-run start calls

abbrev last_port : TunnelService
last_port = new_tunnel_service (8001 ∷ [])

last_port-available : last_port.available_ports ≡ 8001 ∷ []
unfolding new_tunnel_service
last_port-available = refl

register_race_example :
    (check_request last_port (request (codes "c1")) ≡ returns (ok (codes "/stocks/")))
    × (check_request last_port (request (codes "c2")) ≡ returns (ok (codes "/stocks/")))
    × ((s' : TunnelService) × (commit_client last_port
            (codes "s1")
            5
            (request (codes "c1"))
            (codes "/stocks/")
          ≡ returns (registered (codes "c1") 8001, s'))
        × (commit_client s' (codes "s2") 5 (request (codes "c2")) (codes "/stocks/") ≡ panics))
register_race_example =
    register_race last_port (request (codes "c1")) (request (codes "c2")) get_stocks get_stocks 8001
      (codes "s1") (codes "s2") 5 5 (request-IsComplete b'c' (codes "1"))
      (request-IsComplete b'c' (codes "2")) last_port-available
