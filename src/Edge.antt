-- ===== src/Edge.antt =====
-- internal/edge/edge.go: the registry of connectors, the choice of one, and the HTTP handler.
pub mod Options
pub mod Listeners
pub mod Startup
pub mod Balance
pub mod Registry
pub mod Proxy
mod Tests
