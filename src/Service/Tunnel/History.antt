-- ===== src/Service/Tunnel/History.antt =====
-- Registrations and removals in any order, and two registrations at once.
use attachcloudip.Common.{
  ℕ, ◌+◌, ◌≡◌, ap, ◌≤◌, List, [], ◌∷◌, length, count, nat_eq, arith, returns, panics, blocks, ok,
  err,
}
use attachcloudip.Common.Map.{lookup}
use attachcloudip.Common.Text.{Text}
use attachcloudip.Service.Types.{HttpRequest, StreamRequest}
use attachcloudip.Service.Tunnel.{
  TunnelService, register, remove_client, check_request, commit_client, registered,
  new_tunnel_service,
}
use attachcloudip.Service.Tunnel.Invariant.{
  Inv, new_tunnel_service-Inv, remove_client-Inv, remove_client-available_ports,
}
use attachcloudip.Service.Tunnel.Registration.{
  committed, committed-Inv, committed-available_ports, commit_client_lem, commit_client_panics,
}
use attachcloudip.Service.Tunnel.Branches.{IsComplete, register_cases, Registers, check_complete}
use attachcloudip.Service.Tunnel.PortUse.{PortsInv, remove_client-PortsInv, committed-PortsInv}

pub data Call : Type 0 where
  registers : Text → ℕ → StreamRequest → Call
  removes : Text → Call

-- A panic of `Register` comes before it changes anything.
abbrev settle : TunnelService → Registers → TunnelService
settle s (returns (r, s')) = s'
settle s panics = s
settle s blocks = s

pub step : TunnelService → Call → TunnelService
step s (registers session_id now req) = settle s (register s session_id now req)
step s (removes id) = remove_client s id

pub run : TunnelService → List Call → TunnelService
run s [] = s
run s (c ∷ cs) = run (step s c) cs

abbrev accepted : Registers → ℕ
accepted (returns (ok r, s')) = 1
accepted (returns (err e, s')) = 0
accepted panics = 0
accepted blocks = 0

-- How many registrations of the history were accepted.
pub accepted_calls : TunnelService → List Call → ℕ
accepted_calls s [] = 0
accepted_calls s (registers session_id now req ∷ cs) =
    accepted (register s session_id now req)
    + accepted_calls (step s (registers session_id now req)) cs
accepted_calls s (removes id ∷ cs) = accepted_calls (step s (removes id)) cs

pub record Sound (s : TunnelService) : Type 0 where
  pub maps : Inv s
  pub ports : PortsInv s

step-Sound : (s : TunnelService) (c : Call) → Sound s → Sound (step s c)
unfolding step
step-Sound s (registers session_id now req) v =
    register_cases s session_id now req (λ r. Sound (settle s r)) (λ _. v) (λ _ _. v) (λ _ _ _ _. v)
      (λ _ _ _. v)
      (λ http port ports _ e. record {
        maps = committed-Inv s session_id now req http.path port ports v.maps;
        ports = committed-PortsInv s session_id now req http.path port ports e v.ports;
      })
step-Sound s (removes id) v = record {
  maps = remove_client-Inv s id v.maps;
  ports = remove_client-PortsInv s id v.ports;
}

run-Sound : (s : TunnelService) (cs : List Call) → Sound s → Sound (run s cs)
unfolding run
run-Sound s [] v = v
run-Sound s (c ∷ cs) v = run-Sound (step s c) cs (step-Sound s c v)

new_tunnel_service-Sound :
    (ports : List ℕ) → ((p : ℕ) → count p ports ≤ 1) → Sound (new_tunnel_service ports)
unfolding new_tunnel_service lookup
new_tunnel_service-Sound ports h = record {
  maps = new_tunnel_service-Inv ports;
  ports = record { single = h; taken = λ i c e. cc; distinct = λ i j c d e. cc };
}

-- A service that starts with distinct ports has, after any history of registrations and removals,
-- maps that agree and no port in use twice.
pub run-new_tunnel_service-Sound :
    (ports : List ℕ) (cs : List Call)
    → ((p : ℕ) → count p ports ≤ 1)
    → Sound (run (new_tunnel_service ports) cs)
run-new_tunnel_service-Sound ports cs h =
    run-Sound (new_tunnel_service ports) cs (new_tunnel_service-Sound ports h)

accepted-step :
    (s : TunnelService) (session_id : Text) (now : ℕ) (req : StreamRequest)
    → accepted (register s session_id now req)
        + length (settle s (register s session_id now req)).available_ports
      ≡ length s.available_ports
accepted-step s session_id now req =
    register_cases s session_id now req
      (λ r. accepted r + length (settle s r).available_ports ≡ length s.available_ports)
      (λ _. omega arith) (λ _ _. omega arith) (λ _ _ _ _. omega arith) (λ _ _ _. omega arith)
      (λ http port ports _ e.
        ground (arith, e, committed-available_ports s session_id now req http.path port ports))

-- Ports are used up and never given back, neither by a removal nor by a client that registers again:
-- after any history as many are gone as registrations were accepted.
pub accepted_calls-run :
    (s : TunnelService) (cs : List Call)
    → accepted_calls s cs + length (run s cs).available_ports ≡ length s.available_ports
unfolding accepted_calls run step
accepted_calls-run s [] = omega arith
accepted_calls-run s (registers session_id now req ∷ cs) = omega (
  arith,
  accepted-step s session_id now req,
  accepted_calls-run (settle s (register s session_id now req)) cs,
)
accepted_calls-run s (removes id ∷ cs) = omega (
  arith,
  accepted_calls-run (remove_client s id) cs,
  ap length (remove_client-available_ports s id),
)

-- Two calls of `Register` that both read the ports before either takes the lock: with one port left
-- both pass the test, and the second to take the lock panics.
pub register_race :
    (s : TunnelService) (req req' : StreamRequest) (http http' : HttpRequest) (port : ℕ)
    (session_id session_id' : Text) (now now' : ℕ)
    → IsComplete req http
    → IsComplete req' http'
    → s.available_ports ≡ port ∷ []
    → (check_request s req ≡ returns (ok http.path))
      × (check_request s req' ≡ returns (ok http'.path))
      × ((s' : TunnelService) × (commit_client s session_id now req http.path
            ≡ returns (registered req.request_id port, s'))
          × (commit_client s' session_id' now' req' http'.path ≡ panics))
register_race s req req' http http' port session_id session_id' now now' c c' e = (
  check_complete s req http port [] c e,
  check_complete s req' http' port [] c' e,
  (
    committed s session_id now req http.path port [],
    commit_client_lem s session_id now req http.path port [] e,
    commit_client_panics _ session_id' now' req' http'.path
        (committed-available_ports s session_id now req http.path port []),
  ),
)
