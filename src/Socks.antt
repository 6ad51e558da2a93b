-- ===== src/Socks.antt =====
-- The SOCKS5 server of web/internal/corplink/proxy.go.
pub mod Handshake
pub mod Exchange
mod Examples
