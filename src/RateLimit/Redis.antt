-- ===== src/RateLimit/Redis.antt =====
-- packages/core/src/ratelimit/stores/redisStore.ts with the scripts of packages/core/src/ratelimit/lua.
-- Redis runs a script to its end before the next command, so that a script is a function of what its
-- key holds. The server's clock, by which keys expire, is taken to read as the gateway's.
pub mod Hashes
pub mod Laws
use apigateaway.Common.{ℕ, ◌+◌, ◌≤?◌, ◌==◌, Bool, Option, none, some, List, [], ◌∷◌, if◌then◌else◌}
use apigateaway.RateLimit.Types.{Policy, RateLimitResult, capacity}
use apigateaway.RateLimit.Trace.{Call, Decision}

-- A value with the time at which it is gone.
pub record Keyed (V : Type 0) : Type 0 where
  pub value : V
  pub expires_at : ℕ

abbrev pub live : {V : Type 0} → Option (Keyed V) → ℕ → Option V
live none now = none
live (some k) now = if k.expires_at ≤? now then none else some k.value

-- `[allowed, remaining, retryAfterMs]`
pub record ScriptReply : Type 0 where
  pub allowed : ℕ
  pub remaining : ℕ
  pub retry_after_ms : ℕ

-- ARGV: limit, windowMs, capacity, now, cost
pub record ScriptArgs : Type 0 where
  pub limit : ℕ
  pub window_ms : ℕ
  pub capacity : ℕ
  pub now : ℕ
  pub cost : ℕ

-- A script, over what its keys hold.
abbrev pub Script : Type 0 → Type 0
Script K = Option K → ScriptArgs → ScriptReply × Option K

-- `{ allowed and 1 or 0, … }`
abbrev pub flag : Bool → ℕ
flag allowed = if allowed then 1 else 0

-- The `consume` of the store: the script's arguments, and what is made of its reply.
abbrev pub args_of : Policy → ℕ → ℕ → ScriptArgs
args_of p now cost = record {
  limit = p.limit;
  window_ms = p.window_ms;
  capacity = capacity p;
  now = now;
  cost = cost;
}

abbrev pub result_of : Policy → ScriptReply → RateLimitResult
result_of p r = record {
  allowed = r.allowed == 1;
  limit = p.limit;
  remaining = r.remaining;
  retry_after_ms = r.retry_after_ms;
}

module _ {K : Type 0} (script : Script K) where
  unfoldable pub redis_consume : Option K → Policy → ℕ → ℕ → RateLimitResult × Option K
  redis_consume key policy now cost =
      let (reply, key') = script key (args_of policy now cost) in (result_of policy reply, key')

  -- A sequence of calls for one key.
  unfoldable pub script_decisions : Policy → Option K → List Call → List Decision
  unfolding redis_consume
  script_decisions policy key [] = []
  script_decisions policy key ((now, cost) ∷ calls) =
      let (result, key') = redis_consume key policy now cost in
      record { at_time = now; cost = cost; result = result } ∷ script_decisions policy key' calls
