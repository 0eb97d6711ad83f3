-- ===== src/Service/Ports.antt =====
-- pkg/service/tunnel_service.go: `PortManager`. Its lock is held for the whole of each method, so a
-- method is one step.
pub mod Allocation
pub mod History
mod Examples
use attachcloudip.Common.{
  ℕ, zero, suc, ◌+◌, ◌-◌, ◌≡◌, refl, Bool, true, false, not, [], ◌∷◌, Result, ok, err,
  if◌then◌else◌, nat_eq,
}
use attachcloudip.Common.Map.{Map, lookup_or, insert}

pub record PortManager : Type 0 where
  pub ports : Map ℕ Bool

pub data Error : Type 0 where
  no_available_ports : Error

pub new_port_manager : PortManager
new_port_manager = record { ports = [] }

-- `pm.ports[port]`: a port that was never stored is free.
abbrev pub is_taken : PortManager → ℕ → Bool
is_taken pm port = lookup_or port false pm.ports

abbrev pub first_port : ℕ
first_port = 1024

abbrev pub port_limit : ℕ
port_limit = 65536

-- The loop of `AllocatePort`, with the number of rounds left.
scan : ℕ → ℕ → PortManager → Result Error ℕ × PortManager
scan zero port pm = (err no_available_ports, pm)
scan (suc rounds) port pm =
    let rest = scan rounds (port + 1) pm in
    if not (is_taken pm port) then (ok port, record { ports = insert port true pm.ports }) else rest

pub allocate_port : PortManager → Result Error ℕ × PortManager
allocate_port pm = scan (port_limit - first_port) first_port pm

pub release_port : PortManager → ℕ → PortManager
release_port pm port = record { ports = insert port false pm.ports }
