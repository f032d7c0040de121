-- ===== src/RateLimit/LeakyBucket.antt =====
-- packages/core/src/ratelimit/algorithms/leakyBucket.ts
-- `limit / windowMs` leaks each millisecond: the level is counted in units of 1 / windowMs.
pub mod Laws
use apigateaway.Common.{ℕ, ◌+◌, ◌-◌, ◌*◌, ◌/◌, Option, none, some, if◌then◌else◌, ◌≤?◌, ceil_div}
use apigateaway.RateLimit.Types.{Policy, AlgorithmOutput, capacity}

pub record LeakyBucketState : Type 0 where
  pub level : ℕ
  pub last_leak_ms : ℕ

-- `state?.lastLeakMs ?? now`
abbrev pub last_leak : Option LeakyBucketState → ℕ → ℕ
last_leak none now = now
last_leak (some s) now = s.last_leak_ms

-- `state?.level ?? 0`
abbrev pub level_or_zero : Option LeakyBucketState → ℕ
level_or_zero none = 0
level_or_zero (some s) = s.level

-- `-` stops at 0, where the source writes `Math.max(0, …)`.
unfoldable pub leaked : Option LeakyBucketState → Policy → ℕ → ℕ
leaked state policy now =
    let elapsed = now - last_leak state now in level_or_zero state - elapsed * policy.limit

unfoldable pub leaky_bucket :
    Option LeakyBucketState → Policy → ℕ → ℕ → AlgorithmOutput LeakyBucketState
leaky_bucket state policy now cost =
    let full = capacity policy * policy.window_ms in
    let level = leaked state policy now in
    let raised = level + cost * policy.window_ms in
    let allowed = raised ≤? full in
    let next_level = if allowed then raised else level in
    record {
      state = record { level = next_level; last_leak_ms = now };
      result = record {
        allowed = allowed;
        limit = policy.limit;
        remaining = (full - next_level) / policy.window_ms;
        retry_after_ms = if allowed then 0 else ceil_div (raised - full) policy.limit;
      };
    }
