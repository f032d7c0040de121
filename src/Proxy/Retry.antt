-- ===== src/Proxy/Retry.antt =====
-- packages/gateway/src/proxy/retry.ts
-- The upstream, the clock and `Math.random` are an environment: functions of the attempt's number.
pub mod Laws
pub mod Targets
use apigateaway.Common.{
  ◌++◌, ℕ, zero, suc, ◌+◌, ◌-◌, ◌*◌, ◌/◌, ◌^◌, Bool, true, false, ◌&&◌, Option, none, some, List,
  [], ◌∷◌, if◌then◌else◌, ◌≤?◌, Text, lit, includes,
}
use apigateaway.Proxy.Headers.{Headers}
use apigateaway.Config.{RetryConfig}
use apigateaway.Balancer.{Balancer, pick_target, report_success, report_failure}

pub record ForwardResult : Type 0 where
  pub status_code : ℕ
  pub headers : Headers
  pub body : List ℕ

-- The exceptions of an attempt; those of `forwardRequest` that are neither of the first two are `other`.
pub data ForwardError : Type 0 where
  body_too_large upstream_timeout other : ForwardError

pub data Attempt : Type 0 where
  answered : ForwardResult → Attempt
  threw : ForwardError → Attempt

abbrev pub idempotent_methods : List Text
idempotent_methods = lit "GET" ∷ lit "HEAD" ∷ lit "PUT" ∷ lit "DELETE" ∷ []

unfoldable pub is_idempotent_method : Text → Bool
is_idempotent_method method = includes idempotent_methods method

-- How a call ends: with a response, with the exception of an attempt, or with NoHealthyTargetError.
pub data Outcome : Type 0 where
  responded : ForwardResult → Outcome
  failed : ForwardError → Outcome
  no_healthy_target : Outcome

-- The outcome, the balancer left behind, the targets asked and the times slept, in their order.
pub record Forwarded : Type 0 where
  pub outcome : Outcome
  pub balancer : Balancer
  pub tried : List Text
  pub slept : List ℕ

pub record Environment : Type 0 where
  pub forward : ℕ → Text → Attempt
  -- when the target of the attempt is picked, and when its outcome is known
  pub picked_at : ℕ → ℕ
  pub known_at : ℕ → ℕ
  -- what `Math.random()` gives, in units of 2 ^ -53
  pub random : ℕ → ℕ

-- `setTimeout` takes whole milliseconds.
unfoldable pub jittered_backoff : ℕ → ℕ → ℕ → ℕ
jittered_backoff backoff_ms attempt random =
    let upper = backoff_ms * 2 ^ attempt in
    let lower = backoff_ms * 2 ^ (attempt - 1) in lower + random * (upper - lower) / 2 ^ 53

abbrev pub report_status : Balancer → Text → ForwardResult → ℕ → Balancer
report_status b target r now =
    if 500 ≤? r.status_code then report_failure b target now else report_success b target

abbrev pub stop : Outcome → Balancer → List Text → Forwarded
stop outcome b tried = record { outcome = outcome; balancer = b; tried = tried; slept = [] }

abbrev pub tried_first : Text → List ℕ → Forwarded → Forwarded
tried_first target sleeps f = record {
  outcome = f.outcome;
  balancer = f.balancer;
  tried = target ∷ f.tried;
  slept = sleeps ++ f.slept;
}

module _ (env : Environment) (backoff_ms : ℕ) where
  open env use {forward, picked_at, known_at, random}

  -- The sleep before the next attempt, if there is one.
  abbrev pub sleep_before : ℕ → ℕ → List ℕ
  sleep_before zero attempt = []
  sleep_before (suc left) attempt = jittered_backoff backoff_ms attempt (random attempt) ∷ []

  -- The loop, with the attempts left, the number of the next one and the last error.
  unfoldable pub retry_loop : ℕ → ℕ → ForwardError → Balancer → Forwarded
  retry_loop zero attempt last_error b = stop (failed last_error) b []
  retry_loop (suc left) attempt last_error b =
      let (picked, b') = pick_target b (picked_at attempt) in
      elim picked [
        | none ↦ stop no_healthy_target b' []
        | some target ↦ elim (forward attempt target) [
          | answered r ↦
              stop (responded r) (report_status b' target r (known_at attempt)) (target ∷ [])
          | threw body_too_large ↦ stop (failed body_too_large) b' (target ∷ [])
          | threw upstream_timeout ↦ tried_first target (sleep_before left attempt) (
              retry_loop left (attempt + 1) upstream_timeout
                (report_failure b' target (known_at attempt)))
          | threw other ↦
              tried_first target (sleep_before left attempt)
                (retry_loop left (attempt + 1) other (report_failure b' target (known_at attempt)))
        ]
      ]

-- `Boolean(retry) && isIdempotentMethod(method)`
abbrev pub is_eligible : Option RetryConfig → Text → Bool
is_eligible none method = false
is_eligible (some retry) method = is_idempotent_method method

abbrev pub max_attempts : Option RetryConfig → Text → ℕ
max_attempts none method = 1
max_attempts (some retry) method = if is_idempotent_method method then retry.attempts + 1 else 1

abbrev pub backoff_of : Option RetryConfig → ℕ
backoff_of none = 0
backoff_of (some retry) = retry.backoff_ms

-- `buffering` is the exception of reading the whole body beforehand, which is done for an eligible
-- request that has a body.
unfoldable pub forward_with_retry :
    Environment → Option RetryConfig → Text → Option ForwardError → Balancer → Forwarded
forward_with_retry env retry method buffering b =
    let run = retry_loop env (backoff_of retry) (max_attempts retry method) 1 other b in
    elim buffering [
      | none ↦ run
      | some error ↦ if is_eligible retry method then stop (failed error) b [] else run
    ]
