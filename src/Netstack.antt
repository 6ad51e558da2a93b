-- ===== src/Netstack.antt =====
-- The device of the tunnel: web/internal/corplink/netstack.go.
pub mod Device
pub mod Setup
pub mod Stats
mod Counts
mod Examples
