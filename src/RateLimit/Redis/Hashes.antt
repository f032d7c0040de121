-- ===== src/RateLimit/Redis/Hashes.antt =====
-- The four scripts that keep a hash: fixedWindow.lua, tokenBucket.lua, leakyBucket.lua and
-- slidingWindowCounter.lua. A hash has the fields of the algorithm's state; fractions are counted in
-- the units of the algorithms, 1 / windowMs.
pub mod Laws
pub mod Expiry
use apigateaway.Common.{
  ℕ, ◌+◌, ◌-◌, ◌*◌, ◌/◌, min, Bool, true, false, Option, none, some, if◌then◌else◌, ◌==◌, ◌≤?◌,
  ceil_div,
}
use apigateaway.RateLimit.Redis.{Keyed, live, ScriptReply, ScriptArgs, Script, flag}
use apigateaway.RateLimit.FixedWindow.{FixedWindowState}
use apigateaway.RateLimit.TokenBucket.{TokenBucketState}
use apigateaway.RateLimit.LeakyBucket.{LeakyBucketState}
use apigateaway.RateLimit.SlidingCounter.{SlidingCounterState}

-- `storedWindowStart == windowStart`, where a missing field is nil and equals no number.
abbrev pub is_window : Option ℕ → ℕ → Bool
is_window none window_start = false
is_window (some stored) window_start = stored == window_start

-- `tonumber(raw[i]) or default`
abbrev pub field_or : {S : Type 0} → (S → ℕ) → Option S → ℕ → ℕ
field_or field none default = default
field_or field (some s) default = field s

abbrev pub field_of : {S : Type 0} → (S → ℕ) → Option S → Option ℕ
field_of field none = none
field_of field (some s) = some (field s)

-- HSET, then PEXPIRE
abbrev pub stored_for : {S : Type 0} → S → ℕ → ℕ → Option (Keyed S)
stored_for hash now ttl = some (record { value = hash; expires_at = now + ttl })

unfoldable pub fixed_window_script : Script (Keyed FixedWindowState)
fixed_window_script key args =
    let raw = live key args.now in
    let window_start = args.now / args.window_ms * args.window_ms in
    let read = field_or (λ (s : FixedWindowState). s.count) raw 0 in
    let here = is_window (field_of (λ (s : FixedWindowState). s.window_start) raw) window_start in
    let before = if here then read else 0 in
    let projected = before + args.cost in
    let allowed = projected ≤? args.limit in
    let count = if allowed then projected else before in
    (
      record {
        allowed = flag allowed;
        remaining = args.limit - count;
        retry_after_ms = if allowed then 0 else window_start + args.window_ms - args.now;
      },
      stored_for (record { window_start = window_start; count = count }) args.now args.window_ms,
    )

-- `tokens == nil` sets both fields; a hash has both or none.
unfoldable pub token_bucket_script : Script (Keyed TokenBucketState)
token_bucket_script key args =
    let raw = live key args.now in
    let full = args.capacity * args.window_ms in
    let tokens = field_or (λ (s : TokenBucketState). s.tokens) raw full in
    let last_refill_ms = field_or (λ (s : TokenBucketState). s.last_refill_ms) raw args.now in
    let elapsed = args.now - last_refill_ms in
    let available = min full (tokens + elapsed * args.limit) in
    let price = args.cost * args.window_ms in
    let allowed = price ≤? available in
    let remaining_tokens = if allowed then available - price else available in
    (
      record {
        allowed = flag allowed;
        remaining = remaining_tokens / args.window_ms;
        retry_after_ms = if allowed then 0 else ceil_div (price - available) args.limit;
      },
      stored_for (record { tokens = remaining_tokens; last_refill_ms = args.now }) args.now
          (ceil_div full args.limit + 1000),
    )

unfoldable pub leaky_bucket_script : Script (Keyed LeakyBucketState)
leaky_bucket_script key args =
    let raw = live key args.now in
    let full = args.capacity * args.window_ms in
    let stored_level = field_or (λ (s : LeakyBucketState). s.level) raw 0 in
    let last_leak_ms = field_or (λ (s : LeakyBucketState). s.last_leak_ms) raw args.now in
    let elapsed = args.now - last_leak_ms in
    let level = stored_level - elapsed * args.limit in
    let raised = level + args.cost * args.window_ms in
    let allowed = raised ≤? full in
    let next_level = if allowed then raised else level in
    (
      record {
        allowed = flag allowed;
        remaining = (full - next_level) / args.window_ms;
        retry_after_ms = if allowed then 0 else ceil_div (raised - full) args.limit;
      },
      stored_for (record { level = next_level; last_leak_ms = args.now }) args.now
          (ceil_div full args.limit + 1000),
    )

-- The reset of the counts when the stored window is not this one. `windowStart - windowMs` may be
-- negative, and is written without the difference.
abbrev pub previous_in : Option SlidingCounterState → ℕ → ℕ → ℕ
previous_in none window_start window_ms = 0
previous_in (some s) window_start window_ms =
    if s.window_start == window_start
    then s.previous_count
    else if s.window_start + window_ms == window_start
    then s.current_count
    else 0

abbrev pub current_in : Option SlidingCounterState → ℕ → ℕ
current_in none window_start = 0
current_in (some s) window_start = if s.window_start == window_start then s.current_count else 0

unfoldable pub sliding_counter_script : Script (Keyed SlidingCounterState)
sliding_counter_script key args =
    let raw = live key args.now in
    let window_start = args.now / args.window_ms * args.window_ms in
    let previous = previous_in raw window_start args.window_ms in
    let current = current_in raw window_start in
    let elapsed_in_window = args.now - window_start in
    let weighted = previous * (args.window_ms - elapsed_in_window) in
    let estimate = weighted + current * args.window_ms in
    let price = args.cost * args.window_ms in
    let full = args.limit * args.window_ms in
    let allowed = estimate + price ≤? full in
    let current' = if allowed then current + args.cost else current in
    let estimate' = if allowed then weighted + current' * args.window_ms else estimate in
    (
      record {
        allowed = flag allowed;
        remaining = (full - estimate') / args.window_ms;
        retry_after_ms = if allowed then 0 else ceil_div (estimate' + price - full) args.limit;
      },
      stored_for
          (record {
            window_start = window_start;
            previous_count = previous;
            current_count = current';
          })
          args.now (args.window_ms * 2),
    )
