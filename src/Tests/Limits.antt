-- ===== src/Tests/Limits.antt =====
-- The rate limiting algorithms and their enforcement, on a policy of two requests a minute.
use apigateaway.Common.{
  ℕ, ◌≡◌, ◌≤◌, ◌+◌, ◌*◌, ◌-◌, refl, Bool, true, false, Option, none, some, List, [], ◌∷◌, ◌≤?◌,
  Text, lit, arith,
}
use apigateaway.Config.{RateLimitConfig, by_ip, by_tenant, RouteConfig, no_auth}
use apigateaway.RateLimit.Types.{Policy, IsProper, RateLimitResult}
use apigateaway.RateLimit.Trace.{Call, decisions, granted, always}
use apigateaway.RateLimit.FixedWindow.{FixedWindowState, fixed_window}
use apigateaway.RateLimit.FixedWindow.Laws.{in_window, fixed_window-limit, fixed_window-retry}
use apigateaway.RateLimit.TokenBucket.{token_bucket}
use apigateaway.RateLimit.TokenBucket.Laws.{token_bucket-burst}
use apigateaway.RateLimit.SlidingLog.{sliding_log}
use apigateaway.RateLimit.SlidingLog.Laws.{in_last, sliding_log-limit}
use apigateaway.RateLimit.SlidingCounter.{sliding_counter}
use apigateaway.RateLimit.SlidingCounter.Laws.{sliding_counter-limit}
use apigateaway.RateLimit.Store.{named_token_bucket}
use apigateaway.RateLimit.Store.Laws.{
  consumes, resets, closes, Operation, results_for, instance_results, results_for-instance_results,
}
use apigateaway.RateLimit.Enforce.{
  RateLimitContext, Enforced, checks_of, consume_all, enforce_rate_limit, route_policy, ip_key,
  to_check,
}
use apigateaway.RateLimit.Enforce.Laws.{enforce_rate_limit-all}

abbrev policy : Policy
policy = record { limit = 2; window_ms = 60000; burst = none }

policy-IsProper : IsProper policy
policy-IsProper = record { limit_pos = omega arith; window_pos = omega arith }

abbrev calls : List Call
calls = (0, 1) ∷ (10, 1) ∷ (20, 1) ∷ (60005, 1) ∷ []

sliding_log-limit_example :
    granted (in_last 60005 60000) (decisions sliding_log policy none calls) ≤ 2
sliding_log-limit_example =
    sliding_log-limit policy calls 60005
      (omega arith, (omega arith, (omega arith, (omega arith, tt))))

fixed_window-limit_example :
    granted (in_window 0 60000) (decisions fixed_window policy none calls) ≤ 2
fixed_window-limit_example =
    fixed_window-limit policy calls 0 (omega arith, (omega arith, (omega arith, (omega arith, tt))))

sliding_counter-limit_example :
    granted (in_window 0 60000) (decisions sliding_counter policy none calls) ≤ 2
sliding_counter-limit_example =
    sliding_counter-limit policy calls 0 policy-IsProper
      (omega arith, (omega arith, (omega arith, (omega arith, tt))))

token_bucket-burst_example :
    granted always (decisions token_bucket policy none calls) * 60000 ≤ 2 * 60000 + (60005 - 0) * 2
token_bucket-burst_example =
    token_bucket-burst policy none calls 0 60005
      (omega arith, (omega arith, (omega arith, (omega arith, tt))))
      (omega arith, (omega arith, (omega arith, (omega arith, tt))))

-- A full window.
abbrev full_window : FixedWindowState
full_window = record { window_start = 0; count = 2 }

fixed_window_refuses : (fixed_window (some full_window) policy 20 1).result.allowed ≡ false
unfolding fixed_window
fixed_window_refuses = refl

fixed_window-retry_example :
    let out = fixed_window (some full_window) policy 20 1 in
    (fixed_window (some out.state) policy (20 + 29980) 1).result.allowed
    ≡ (out.result.retry_after_ms ≤? 29980)
fixed_window-retry_example =
    fixed_window-retry policy (some full_window) 20 1 29980 policy-IsProper (omega arith)
      fixed_window_refuses

abbrev history : List Operation
history =
    consumes (lit "a") policy 0 1
    ∷ consumes (lit "b") policy 5 2
    ∷ resets (lit "a")
    ∷ consumes (lit "a") policy 7 2
    ∷ closes
    ∷ consumes (lit "a") policy 9 1
    ∷ []

results_for-instance_results_example :
    results_for token_bucket (lit "a") [] history
    ≡ instance_results token_bucket (lit "a") none history
results_for-instance_results_example =
    results_for-instance_results token_bucket (lit "a") [] history

-- A store that counts its calls, and allows two.
abbrev counting : ℕ → Text → Policy → Option RateLimitResult × ℕ
counting n key policy = (
  some (record {
    allowed = n + 1 ≤? 2;
    limit = policy.limit;
    remaining = 2 - (n + 1);
    retry_after_ms = 1000;
  }),
  n + 1,
)

abbrev limits : RateLimitConfig
limits = record {
  algorithm = named_token_bucket;
  key_by = by_ip ∷ by_tenant ∷ [];
  limit = 2;
  window_sec = 60;
  burst = none;
  global = none;
}

abbrev limited : RouteConfig
limited = record {
  id = lit "orders";
  match_on = record { path = lit "/orders/*"; methods = none; host = none };
  strip_prefix = none;
  upstream = record {
    targets = lit "http://u" ∷ [];
    health_check = none;
    timeout_ms = 1000;
    body_timeout_ms = none;
  };
  auth = no_auth;
  rate_limit = some limits;
  cache = none;
  cors = none;
  websocket = none;
  transform = none;
  retry = none;
  circuit_breaker = none;
}

abbrev anonymous : RateLimitContext
anonymous = record { tenant_id = none; tenant_plan = none }

abbrev answer : Bool → ℕ → RateLimitResult
answer allowed remaining = record {
  allowed = allowed;
  limit = 2;
  remaining = remaining;
  retry_after_ms = 1000;
}

enforce_rate_limit-all_example :
    (out : Enforced) × ((enforce_rate_limit counting 2 limited (lit "10.0.0.1") anonymous true
        ≡ some (out, 3))
      × (out.passes ≡ false))
unfolding checks_of consume_all
enforce_rate_limit-all_example =
    enforce_rate_limit-all counting 2 3 limited limits (lit "10.0.0.1") anonymous true
      (to_check (ip_key (lit "10.0.0.1") (lit "orders")) (route_policy limits) ∷ [])
      (answer false 0 ∷ []) refl refl refl
