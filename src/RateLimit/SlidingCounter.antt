-- ===== src/RateLimit/SlidingCounter.antt =====
-- packages/core/src/ratelimit/algorithms/slidingWindowCounter.ts
-- The weighted count of the previous window is a fraction over windowMs: estimates are counted in
-- units of 1 / windowMs.
pub mod Laws
use apigateaway.Common.{
  ℕ, ◌+◌, ◌-◌, ◌*◌, ◌/◌, Option, none, some, if◌then◌else◌, ◌==◌, ◌≤?◌, ceil_div,
}
use apigateaway.RateLimit.Types.{Policy, AlgorithmOutput}
use apigateaway.RateLimit.FixedWindow.{window_start_of}

pub record SlidingCounterState : Type 0 where
  pub window_start : ℕ
  pub previous_count : ℕ
  pub current_count : ℕ

-- What `carryForward` returns.
pub record Counts : Type 0 where
  pub previous_count : ℕ
  pub current_count : ℕ

-- `state.windowStart === windowStart - windowMs`, where the difference may be negative.
unfoldable pub carry_forward : Option SlidingCounterState → ℕ → ℕ → Counts
carry_forward none window_start window_ms = record { previous_count = 0; current_count = 0 }
carry_forward (some s) window_start window_ms =
    if s.window_start == window_start
    then record { previous_count = s.previous_count; current_count = s.current_count }
    else if s.window_start + window_ms == window_start
    then record { previous_count = s.current_count; current_count = 0 }
    else record { previous_count = 0; current_count = 0 }

-- `previousCount * overlap + currentCount`, where `overlap` is the share of the window still to come.
unfoldable pub estimate_of : Counts → ℕ → ℕ → ℕ
estimate_of c elapsed window_ms =
    c.previous_count * (window_ms - elapsed) + c.current_count * window_ms

unfoldable pub sliding_counter :
    Option SlidingCounterState → Policy → ℕ → ℕ → AlgorithmOutput SlidingCounterState
sliding_counter state policy now cost =
    let window_start = window_start_of now policy.window_ms in
    let counts = carry_forward state window_start policy.window_ms in
    let estimate = estimate_of counts (now - window_start) policy.window_ms in
    let price = cost * policy.window_ms in
    let full = policy.limit * policy.window_ms in
    let allowed = estimate + price ≤? full in
    record {
      state = record {
        window_start = window_start;
        previous_count = counts.previous_count;
        current_count = if allowed then counts.current_count + cost else counts.current_count;
      };
      result = record {
        allowed = allowed;
        limit = policy.limit;
        remaining = (full - (if allowed then estimate + price else estimate)) / policy.window_ms;
        retry_after_ms = if allowed then 0 else ceil_div (estimate + price - full) policy.limit;
      };
    }
