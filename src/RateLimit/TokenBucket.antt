-- ===== src/RateLimit/TokenBucket.antt =====
-- packages/core/src/ratelimit/algorithms/tokenBucket.ts
-- `limit / windowMs` tokens are refilled each millisecond: the contents of a bucket are counted in
-- units of 1 / windowMs of a token, in which every quantity of the algorithm is a whole number.
-- The unit is that of one policy: the calls on a state have a windowMs in common.
pub mod Laws
use apigateaway.Common.{
  ℕ, ◌+◌, ◌-◌, ◌*◌, ◌/◌, min, Option, none, some, if◌then◌else◌, ◌≤?◌, ceil_div,
}
use apigateaway.RateLimit.Types.{Policy, AlgorithmOutput, capacity}

pub record TokenBucketState : Type 0 where
  pub tokens : ℕ
  pub last_refill_ms : ℕ

-- `state?.lastRefillMs ?? now`
abbrev pub last_refill : Option TokenBucketState → ℕ → ℕ
last_refill none now = now
last_refill (some s) now = s.last_refill_ms

-- `state?.tokens ?? capacity`
abbrev pub tokens_or : Option TokenBucketState → ℕ → ℕ
tokens_or none full = full
tokens_or (some s) full = s.tokens

-- `elapsed` is `Math.max(0, now - lastRefillMs)`, as `-` stops at 0.
unfoldable pub refilled : Option TokenBucketState → Policy → ℕ → ℕ
refilled state policy now =
    let elapsed = now - last_refill state now in
    let full = capacity policy * policy.window_ms in
    min full (tokens_or state full + elapsed * policy.limit)

unfoldable pub token_bucket :
    Option TokenBucketState → Policy → ℕ → ℕ → AlgorithmOutput TokenBucketState
token_bucket state policy now cost =
    let available = refilled state policy now in
    let price = cost * policy.window_ms in
    let allowed = price ≤? available in
    let tokens = if allowed then available - price else available in
    record {
      state = record { tokens = tokens; last_refill_ms = now };
      result = record {
        allowed = allowed;
        limit = policy.limit;
        remaining = tokens / policy.window_ms;
        retry_after_ms = if allowed then 0 else ceil_div (price - available) policy.limit;
      };
    }
