-- ===== src/Admin.antt =====
-- The gate of the control panel, web/internal/vpnmgr/admin.go.
pub mod Sessions
pub mod Lockout
pub mod Guesses
mod Examples
