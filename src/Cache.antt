-- ===== src/Cache.antt =====
-- The response cache: packages/core/src/cache and packages/gateway/src/cache.
pub mod Policy
pub mod Store
pub mod Key
