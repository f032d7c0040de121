-- ===== src/RateLimit/Types.antt =====
-- packages/core/src/ratelimit/stores/Store.ts and algorithms/types.ts: the policy, the decision, the
-- interface of an algorithm. Times are in milliseconds.
use apigateaway.Common.{ℕ, ◌<◌, Bool, Option, or_else}

pub record Policy : Type 0 where
  pub limit : ℕ
  pub window_ms : ℕ
  pub burst : Option ℕ

-- What config/schema.ts asks of every policy: a positive limit and window.
pub record IsProper (p : Policy) : Type 0 where
  pub limit_pos : 0 < p.limit
  pub window_pos : 0 < p.window_ms

-- `policy.burst ?? policy.limit`
abbrev pub capacity : Policy → ℕ
capacity p = or_else p.burst p.limit

pub record RateLimitResult : Type 0 where
  pub allowed : Bool
  pub limit : ℕ
  pub remaining : ℕ
  pub retry_after_ms : ℕ

pub record AlgorithmOutput (S : Type 0) : Type 0 where
  pub state : S
  pub result : RateLimitResult

-- The state before (none on the first call), the policy, the time and the cost.
abbrev pub Algorithm : Type 0 → Type 0
Algorithm S = Option S → Policy → ℕ → ℕ → AlgorithmOutput S
