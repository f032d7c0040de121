-- ===== src/Breaker.antt =====
-- packages/core/src/breaker/circuitBreaker.ts
pub mod Spec
pub mod Laws
use apigateaway.Common.{ℕ, ◌+◌, Bool, true, false, if◌then◌else◌, ◌<?◌, ◌≤?◌}

pub data CircuitState : Type 0 where
  closed open_ half_open : CircuitState

pub record CircuitBreakerOptions : Type 0 where
  pub failure_threshold : ℕ
  pub reset_timeout_ms : ℕ

pub record CircuitBreaker : Type 0 where
  pub options : CircuitBreakerOptions
  pub state : CircuitState
  pub consecutive_failures : ℕ
  pub opened_at : ℕ
  pub half_open_trial_in_flight : Bool

-- `new CircuitBreaker(options)`
unfoldable pub new_breaker : CircuitBreakerOptions → CircuitBreaker
new_breaker options = record {
  options = options;
  state = closed;
  consecutive_failures = 0;
  opened_at = 0;
  half_open_trial_in_flight = false;
}

-- The end of `canRequest`, in the half-open state: one trial at a time.
abbrev pub try_half_open : CircuitBreaker → Bool × CircuitBreaker
try_half_open b =
    if b.half_open_trial_in_flight
    then (false, b)
    else (true, record b { half_open_trial_in_flight = true })

abbrev pub can_request_in : CircuitState → CircuitBreaker → ℕ → Bool × CircuitBreaker
can_request_in closed b now = (true, b)
can_request_in open_ b now =
    if now <? b.opened_at + b.options.reset_timeout_ms
    then (false, b)
    else try_half_open (record b { state = half_open; half_open_trial_in_flight = false })
can_request_in half_open b now = try_half_open b

-- `now - openedAt < resetTimeoutMs` is written without the difference, which may be negative.
unfoldable pub can_request : CircuitBreaker → ℕ → Bool × CircuitBreaker
can_request b now = can_request_in b.state b now

unfoldable pub record_success : CircuitBreaker → CircuitBreaker
record_success b = record b {
  state = closed;
  consecutive_failures = 0;
  half_open_trial_in_flight = false;
}

abbrev pub count_failure : CircuitBreaker → ℕ → CircuitBreaker
count_failure b now =
    let failures = b.consecutive_failures + 1 in
    if b.options.failure_threshold ≤? failures
    then record b {
      state = open_;
      consecutive_failures = failures;
      opened_at = now;
      half_open_trial_in_flight = false;
    }
    else record b { consecutive_failures = failures; half_open_trial_in_flight = false }

abbrev pub record_failure_in : CircuitState → CircuitBreaker → ℕ → CircuitBreaker
record_failure_in half_open b now = record b {
  state = open_;
  opened_at = now;
  half_open_trial_in_flight = false;
}
record_failure_in closed b now = count_failure b now
record_failure_in open_ b now = count_failure b now

unfoldable pub record_failure : CircuitBreaker → ℕ → CircuitBreaker
record_failure b now = record_failure_in b.state b now
