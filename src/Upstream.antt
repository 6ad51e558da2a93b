-- ===== src/Upstream.antt =====
-- web/internal/corplink/upstream.go.
pub mod Address
pub mod Lines
pub mod Parse
pub mod Dial
mod Kinds
mod Replies
mod Trip
mod Examples
