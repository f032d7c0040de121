-- ===== src/RateLimit/SlidingLog.antt =====
-- packages/core/src/ratelimit/algorithms/slidingWindowLog.ts
pub mod Laws
use apigateaway.Common.{
  ℕ, ◌+◌, ◌-◌, Option, none, some, List, [], ◌∷◌, ◌++◌, Bool, if◌then◌else◌, ◌≤?◌, ◌<?◌, keep,
}
use apigateaway.RateLimit.Types.{Policy, AlgorithmOutput}

-- A time and a cost.
abbrev pub Entry : Type 0
Entry = ℕ × ℕ

pub record SlidingLogState : Type 0 where
  pub entries : List Entry

-- `state?.entries ?? []`
abbrev pub entries_of : Option SlidingLogState → List Entry
entries_of none = []
entries_of (some s) = s.entries

-- `ts > now - windowMs`, where the difference may be negative.
abbrev pub is_alive : ℕ → ℕ → Entry → Bool
is_alive now window_ms (ts, cost) = now <? ts + window_ms

-- `alive.reduce((sum, [, c]) => sum + c, 0)`
abbrev pub total : List Entry → ℕ
total [] = 0
total ((ts, cost) ∷ es) = cost + total es

-- `alive[0]?.[0] ?? now`
abbrev pub first_time : List Entry → ℕ → ℕ
first_time [] now = now
first_time ((ts, cost) ∷ es) now = ts

unfoldable pub sliding_log :
    Option SlidingLogState → Policy → ℕ → ℕ → AlgorithmOutput SlidingLogState
sliding_log state policy now cost =
    let alive = keep (is_alive now policy.window_ms) (entries_of state) in
    let current_count = total alive in
    let allowed = current_count + cost ≤? policy.limit in
    let final_count = if allowed then current_count + cost else current_count in
    record {
      state = record { entries = if allowed then alive ++ (now, cost) ∷ [] else alive };
      result = record {
        allowed = allowed;
        limit = policy.limit;
        remaining = policy.limit - final_count;
        retry_after_ms = if allowed then 0 else first_time alive now + policy.window_ms - now;
      };
    }
