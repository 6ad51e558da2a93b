-- ===== src/Forward.antt =====
-- The forward proxy of web/internal/corplink/proxy_http.go.
pub mod Wire
pub mod State
pub mod Body
pub mod Once
pub mod Request
mod Pieces
mod Writes
pub mod Origin
pub mod Genuine
pub mod Relay
pub mod Buffered
pub mod Collect
pub mod Attempts
pub mod Resume
pub mod Seamless
pub mod Replays
pub mod Handled
mod Examples
