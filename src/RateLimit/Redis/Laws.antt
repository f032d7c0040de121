-- ===== src/RateLimit/Redis/Laws.antt =====
-- The scripts against the algorithms of the gateway.
use apigateaway.Common.{◌≡◌, none, List}
use apigateaway.RateLimit.Types.{Policy, IsProper}
use apigateaway.RateLimit.Trace.{Call, decisions}
use apigateaway.RateLimit.FixedWindow.{fixed_window}
use apigateaway.RateLimit.TokenBucket.{token_bucket}
use apigateaway.RateLimit.LeakyBucket.{leaky_bucket}
use apigateaway.RateLimit.SlidingCounter.{sliding_counter}
use apigateaway.RateLimit.Redis.{script_decisions}
use apigateaway.RateLimit.Redis.Hashes.{
  fixed_window_script, token_bucket_script, leaky_bucket_script, sliding_counter_script,
}
use apigateaway.RateLimit.Redis.Hashes.Expiry.{
  fixed_window_script-decisions, token_bucket_script-decisions, leaky_bucket_script-decisions,
  sliding_counter_script-decisions,
}

-- On a key that holds nothing yet, and for a proper policy, each of the four scripts that keep a hash
-- decides every sequence of calls as the algorithm in memory does, although the key expires.
pub scripts-decisions :
    (p : Policy) (calls : List Call)
    → IsProper p
    → (script_decisions fixed_window_script p none calls ≡ decisions fixed_window p none calls)
      × (script_decisions token_bucket_script p none calls ≡ decisions token_bucket p none calls)
      × (script_decisions leaky_bucket_script p none calls ≡ decisions leaky_bucket p none calls)
      × (script_decisions sliding_counter_script p none calls
          ≡ decisions sliding_counter p none calls)
scripts-decisions p calls h = (
  fixed_window_script-decisions p calls h,
  token_bucket_script-decisions p calls h,
  leaky_bucket_script-decisions p calls h,
  sliding_counter_script-decisions p calls h,
)
