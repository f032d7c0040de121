-- ===== src/Adapters.antt =====
-- packages/adapters/express/src/index.ts and packages/adapters/fastify/src/index.ts: one limit for
-- a whole application, over a store that is given or made in memory. The key of a request is the
-- caller's, as `keyGenerator` gives it.
pub mod Laws
use apigateaway.Common.{
  ℕ, ◌*◌, Bool, true, false, Option, none, some, List, [], ◌∷◌, ◌++◌, if◌then◌else◌, Text, lit,
  or_else,
}
use apigateaway.Http.{ReplyCall, header_set, sent, number_value}
use apigateaway.RateLimit.Types.{Policy, RateLimitResult}
use apigateaway.RateLimit.Store.{
  AlgorithmName, named_token_bucket, MemoryStore, create_memory_store,
}
use apigateaway.RateLimit.Enforce.{retry_after_sec}

pub record RateLimiterOptions : Type 0 where
  pub limit : ℕ
  pub window_sec : ℕ
  pub burst : Option ℕ
  pub algorithm : Option AlgorithmName

-- The store that is made when none is given.
unfoldable pub own_store : RateLimiterOptions → MemoryStore
own_store options = create_memory_store (or_else options.algorithm named_token_bucket)

abbrev pub policy_of : RateLimiterOptions → Policy
policy_of options = record {
  limit = options.limit;
  window_ms = options.window_sec * 1000;
  burst = options.burst;
}

-- `req.ip ?? 'unknown'`, the key of Express where no generator is given
abbrev pub default_key : Option Text → Text
default_key ip = or_else ip (lit "unknown")

-- What becomes of a request: the next handler runs, it has been answered, or it failed.
pub data Passed : Type 0 where
  goes_on answered_here failed_with_store : Passed

abbrev pub common_headers : RateLimitResult → List ReplyCall
common_headers r =
    header_set (lit "RateLimit-Limit") (number_value r.limit)
    ∷ header_set (lit "RateLimit-Remaining") (number_value r.remaining)
    ∷ header_set (lit "RateLimit-Reset") (number_value (retry_after_sec r))
    ∷ []

abbrev pub too_many : RateLimitResult → List ReplyCall
too_many r =
    header_set (lit "Retry-After") (number_value (retry_after_sec r))
    ∷ sent 429 (lit "rate_limit_exceeded") (some (retry_after_sec r))
    ∷ []

abbrev pub answer_of : RateLimitResult → Passed × List ReplyCall
answer_of r =
    if r.allowed
    then (goes_on, common_headers r)
    else (answered_here, common_headers r ++ too_many r)

abbrev pub on_result : Option RateLimitResult → Passed × List ReplyCall
on_result none = (failed_with_store, [])
on_result (some r) = answer_of r

module _ {S : Type 0} (consume : S → Text → Policy → Option RateLimitResult × S) where
  -- The middleware of Express: a failure of the store is given to `next`. The hook of Fastify: it is
  -- the hook's exception, which Fastify answers.
  unfoldable pub rate_limiter : RateLimiterOptions → S → Text → (Passed × List ReplyCall) × S
  rate_limiter options store key =
      let (result, store') = consume store key (policy_of options) in (on_result result, store')
