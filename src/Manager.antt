-- ===== src/Manager.antt =====
-- The VPN manager of web/internal/vpnmgr.
pub mod State
pub mod Lifecycle
pub mod Sections
pub mod Events
pub mod Whole
pub mod Coherence
pub mod Tally
pub mod Ledger
pub mod Races
pub mod Health
mod Examples
