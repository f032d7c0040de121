-- ===== src/RateLimit.antt =====
-- packages/core/src/ratelimit: the policy, the decision, the interface of an algorithm.
-- Times are milliseconds. A policy's `limit` and `windowMs` are positive (config/schema.ts checks it).
pub mod Types
pub mod Trace
pub mod FixedWindow
pub mod TokenBucket
pub mod LeakyBucket
pub mod SlidingLog
pub mod SlidingCounter
pub mod Store
pub mod Redis
pub mod Enforce
