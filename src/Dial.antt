-- ===== src/Dial.antt =====
-- The dialing of web/internal/corplink/proxy.go.
pub mod Recent
pub mod Live
pub mod Lookup
pub mod Attempt
mod Order
mod Marks
mod Genuine
mod Kicks
mod Examples
