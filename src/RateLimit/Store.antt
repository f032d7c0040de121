-- ===== src/RateLimit/Store.antt =====
-- packages/core/src/ratelimit/stores/memoryStore.ts: a map from keys to states, of one algorithm.
-- `consume` has no `await`, so that a call runs to its end before the next one: a call is a function
-- of the store, and the time that `Date.now()` reads is its argument.
pub mod Laws
use apigateaway.Common.{ℕ, List, [], ◌∷◌, Option, Text, Dict, lookup, insert, delete}
use apigateaway.RateLimit.Types.{Policy, RateLimitResult, Algorithm}
use apigateaway.RateLimit.FixedWindow.{FixedWindowState, fixed_window}
use apigateaway.RateLimit.TokenBucket.{TokenBucketState, token_bucket}
use apigateaway.RateLimit.LeakyBucket.{LeakyBucketState, leaky_bucket}
use apigateaway.RateLimit.SlidingLog.{SlidingLogState, sliding_log}
use apigateaway.RateLimit.SlidingCounter.{SlidingCounterState, sliding_counter}

-- `fromAlgorithm`: the calls of a store over one algorithm.
module _ {S : Type 0} (apply : Algorithm S) where
  unfoldable pub consume : Dict S → Text → Policy → ℕ → ℕ → RateLimitResult × Dict S
  consume states key policy now cost =
      let out = apply (lookup key states) policy now cost in
      (out.result, insert key out.state states)

abbrev pub reset {ℓ} : {S : Type ℓ} → Dict S → Text → Dict S
reset states key = delete key states

abbrev pub close {ℓ} : {S : Type ℓ} → Dict S → Dict S
close states = []

pub data AlgorithmName : Type 0 where
  named_fixed_window named_token_bucket named_leaky_bucket : AlgorithmName
  named_sliding_log named_sliding_counter : AlgorithmName

-- A store made for one of the algorithms.
pub data MemoryStore : Type 0 where
  fixed_windows : Dict FixedWindowState → MemoryStore
  token_buckets : Dict TokenBucketState → MemoryStore
  leaky_buckets : Dict LeakyBucketState → MemoryStore
  sliding_logs : Dict SlidingLogState → MemoryStore
  sliding_counters : Dict SlidingCounterState → MemoryStore

unfoldable pub create_memory_store : AlgorithmName → MemoryStore
create_memory_store named_fixed_window = fixed_windows []
create_memory_store named_token_bucket = token_buckets []
create_memory_store named_leaky_bucket = leaky_buckets []
create_memory_store named_sliding_log = sliding_logs []
create_memory_store named_sliding_counter = sliding_counters []

unfoldable pub store_consume : MemoryStore → Text → Policy → ℕ → ℕ → RateLimitResult × MemoryStore
unfolding consume
store_consume (fixed_windows m) key policy now cost =
    let (r, m') = consume fixed_window m key policy now cost in (r, fixed_windows m')
store_consume (token_buckets m) key policy now cost =
    let (r, m') = consume token_bucket m key policy now cost in (r, token_buckets m')
store_consume (leaky_buckets m) key policy now cost =
    let (r, m') = consume leaky_bucket m key policy now cost in (r, leaky_buckets m')
store_consume (sliding_logs m) key policy now cost =
    let (r, m') = consume sliding_log m key policy now cost in (r, sliding_logs m')
store_consume (sliding_counters m) key policy now cost =
    let (r, m') = consume sliding_counter m key policy now cost in (r, sliding_counters m')
