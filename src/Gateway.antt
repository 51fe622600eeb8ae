-- ===== src/Gateway.antt =====
-- gateway/gateway.go: the options, the construction of a service's handler, the hosts, and the
-- generations of a hot reload.
pub mod Options
pub mod Assembly
pub mod Generations
pub mod Pipeline
pub mod Startup
pub mod Flushing
pub mod Reloading
mod Examples
