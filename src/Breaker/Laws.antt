-- ===== src/Breaker/Laws.antt =====
-- The breaker implements its specification; a trial without an outcome closes it off for good.
use apigateaway.Common.{
  suc, map, ◌≢◌, ap₂, ℕ, ◌≤◌, ◌<◌, ◌≡◌, refl, Bool, true, false, List, [], ◌∷◌, arith,
}
use apigateaway.Breaker.{
  closed, open_, half_open, CircuitBreakerOptions, CircuitBreaker, new_breaker, can_request,
  record_success, record_failure,
}
use apigateaway.Breaker.Spec.{
  Phase, closed_after, open_since, probing, ask, fail, Event, requests, succeeds, fails, answers,
  spec_answers,
}

-- The phase that a breaker is in. Between two calls a half-open breaker has its trial in flight, and
-- an open one has reached the threshold.
abbrev pub InPhase : CircuitBreakerOptions → CircuitBreaker → Phase → Type 0
InPhase o b (closed_after n) =
    (b.options ≡ o) × (b.state ≡ closed) × (b.consecutive_failures ≡ n) × (n < o.failure_threshold)
InPhase o b (open_since t) =
    (b.options ≡ o)
    × (b.state ≡ open_)
    × (b.opened_at ≡ t)
    × (o.failure_threshold ≤ b.consecutive_failures)
InPhase o b probing =
    (b.options ≡ o)
    × (b.state ≡ half_open)
    × (b.half_open_trial_in_flight ≡ true)
    × (o.failure_threshold ≤ b.consecutive_failures)

can_request-InPhase :
    (o : CircuitBreakerOptions) (b : CircuitBreaker) (p : Phase) (now : ℕ)
    → InPhase o b p
    → ((can_request b now).0 ≡ (ask o p now).0) × InPhase o (can_request b now).1 (ask o p now).1
unfolding can_request ask
can_request-InPhase o b (closed_after n) now h = ground arith
can_request-InPhase o b (open_since t) now h = ground arith
can_request-InPhase o b probing now h = ground arith

record_failure-InPhase :
    (o : CircuitBreakerOptions) (b : CircuitBreaker) (p : Phase) (now : ℕ)
    → InPhase o b p
    → InPhase o (record_failure b now) (fail o p now)
unfolding record_failure fail
record_failure-InPhase o b (closed_after n) now h = ground arith
record_failure-InPhase o b (open_since t) now h = ground arith
record_failure-InPhase o b probing now h = ground arith

options_of :
    (o : CircuitBreakerOptions) (b : CircuitBreaker) (p : Phase) → InPhase o b p → b.options ≡ o
options_of o b (closed_after n) h = h.0
options_of o b (open_since t) h = h.0
options_of o b probing h = h.0

answers-InPhase :
    (o : CircuitBreakerOptions) (b : CircuitBreaker) (p : Phase) (es : List Event)
    → 0 < o.failure_threshold
    → InPhase o b p
    → answers b es ≡ spec_answers o p es
unfolding answers spec_answers record_success
answers-InPhase o b p [] pos h = refl
answers-InPhase o b p (requests now ∷ es) pos h =
    let (answer, after) = can_request-InPhase o b p now h in
    ap₂ ◌∷◌ answer (answers-InPhase o (can_request b now).1 (ask o p now).1 es pos after)
answers-InPhase o b p (succeeds ∷ es) pos h =
    answers-InPhase o (record_success b) (closed_after 0) es pos
      (options_of o b p h, refl, refl, pos)
answers-InPhase o b p (fails now ∷ es) pos h =
    answers-InPhase o (record_failure b now) (fail o p now) es pos
      (record_failure-InPhase o b p now h)

-- Every history of requests and reported outcomes gets from a new breaker the answers of the
-- specification: closed until `failureThreshold` failures in a row, shut for `resetTimeoutMs` after
-- the last failure, then one trial at a time whose outcome decides.
pub answers-spec_answers :
    (o : CircuitBreakerOptions) (es : List Event)
    → 0 < o.failure_threshold
    → answers (new_breaker o) es ≡ spec_answers o (closed_after 0) es
unfolding new_breaker
answers-spec_answers o es pos =
    answers-InPhase o (new_breaker o) (closed_after 0) es pos (refl, refl, refl, pos)

-- The requests of a stretch of time in which no outcome is reported.
abbrev pub asks : List ℕ → List Event
asks = map requests

abbrev pub count_true : List Bool → ℕ
count_true [] = 0
count_true (true ∷ bs) = suc (count_true bs)
count_true (false ∷ bs) = count_true bs

-- A half-open breaker whose trial is in flight refuses every request, whatever the time, until an
-- outcome is reported: no time that passes ends the wait.
trial_without_outcome :
    (b : CircuitBreaker) (times : List ℕ)
    → b.state ≡ half_open
    → b.half_open_trial_in_flight ≡ true
    → (count_true (answers b (asks times)) ≡ 0)
unfolding answers can_request
trial_without_outcome b [] at flying = refl
trial_without_outcome b (now ∷ times) at flying =
    ground (arith, trial_without_outcome b times at flying)

-- A breaker that is not closed lets at most one request through until an outcome is reported.
one_trial :
    (b : CircuitBreaker) (times : List ℕ)
    → b.state ≢ closed
    → count_true (answers b (asks times)) ≤ 1
unfolding answers can_request
one_trial b [] h = omega arith
one_trial b (now ∷ times) h =
    ground (arith, one_trial b times, trial_without_outcome (can_request b now).1 times)

-- A refusal changes nothing.
pub can_request_refused :
    (b : CircuitBreaker) (now : ℕ) → (can_request b now).0 ≡ false → (can_request b now).1 ≡ b
unfolding can_request
can_request_refused b now h = ground arith
