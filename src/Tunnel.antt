-- ===== src/Tunnel.antt =====
-- The tunnel generation and the refresh kicks of web/internal/corplink/proxy.go.
pub mod Kicks
mod Examples
