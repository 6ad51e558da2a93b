-- ===== src/Routes.antt =====
-- Routes into the tunnel, of web/internal/corplink/wgconf.go.
pub mod Carve
pub mod Cover
pub mod Subtract
pub mod Build
mod Left
mod Endpoint
mod Examples
