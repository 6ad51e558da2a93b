-- ===== src/Assets.antt =====
-- web/internal/corplink/proxy_cache.go: the proxy's cache of immutable assets.
pub mod Cache
pub mod Order
pub mod Invariant
pub mod Recency
pub mod Progress
pub mod Names
mod Examples
