-- ===== src/Settings.antt =====
-- The settings: web/internal/corplink/config.go and web/internal/vpnmgr/config_ops.go.
pub mod Config
pub mod Update
mod Complete
mod Choices
mod Examples
