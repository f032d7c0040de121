-- ===== src/RateLimit/FixedWindow.antt =====
-- packages/core/src/ratelimit/algorithms/fixedWindow.ts
pub mod Laws
use apigateaway.Common.{ℕ, ◌+◌, ◌-◌, ◌*◌, ◌/◌, Option, none, some, if◌then◌else◌, ◌==◌, ◌≤?◌}
use apigateaway.RateLimit.Types.{Policy, AlgorithmOutput}

pub record FixedWindowState : Type 0 where
  pub window_start : ℕ
  pub count : ℕ

-- `Math.floor(now / windowMs) * windowMs`
abbrev pub window_start_of : ℕ → ℕ → ℕ
window_start_of now window_ms = now / window_ms * window_ms

-- `state && state.windowStart === windowStart ? state.count : 0`
abbrev pub count_in : Option FixedWindowState → ℕ → ℕ
count_in none window_start = 0
count_in (some s) window_start = if s.window_start == window_start then s.count else 0

-- `remaining` is `Math.max(0, limit - count)`, as `-` stops at 0.
unfoldable pub fixed_window :
    Option FixedWindowState → Policy → ℕ → ℕ → AlgorithmOutput FixedWindowState
fixed_window state policy now cost =
    let window_start = window_start_of now policy.window_ms in
    let current_count = count_in state window_start in
    let projected = current_count + cost in
    let allowed = projected ≤? policy.limit in
    let count = if allowed then projected else current_count in
    record {
      state = record { window_start = window_start; count = count };
      result = record {
        allowed = allowed;
        limit = policy.limit;
        remaining = policy.limit - count;
        retry_after_ms = if allowed then 0 else window_start + policy.window_ms - now;
      };
    }
