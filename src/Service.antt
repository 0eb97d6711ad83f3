-- ===== src/Service.antt =====
-- pkg/service/tunnel_service.go
pub mod Paths
pub mod Ports
pub mod Types
pub mod Tunnel
pub mod Waiters
pub mod Routing
mod RoutingExamples
