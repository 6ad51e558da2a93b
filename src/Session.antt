-- ===== src/Session.antt =====
-- The client of the VPN service: web/internal/corplink/client.go, cookiejar.go, api.go and totp.go.
pub mod Jar
pub mod Api
pub mod Totp
pub mod Client
pub mod Login
pub mod Nodes
pub mod Discover
mod Cookies
mod Codes
mod Choice
mod Reports
mod Examples
