-- ===== src/Breaker/Spec.antt =====
-- What a circuit breaker promises, with no more state than that takes.
use apigateaway.Common.{ℕ, ◌+◌, Bool, true, false, if◌then◌else◌, ◌<?◌, ◌≤?◌, List, [], ◌∷◌}
use apigateaway.Breaker.{
  CircuitBreakerOptions, CircuitBreaker, can_request, record_success, record_failure,
}

-- Closed, with the failures since the last success; open since a time; or waiting for the outcome of
-- the one request let through.
pub data Phase : Type 0 where
  closed_after : ℕ → Phase
  open_since : ℕ → Phase
  probing : Phase

module _ (o : CircuitBreakerOptions) where
  unfoldable pub ask : Phase → ℕ → Bool × Phase
  ask (closed_after n) now = (true, closed_after n)
  ask (open_since t) now =
      if now <? t + o.reset_timeout_ms then (false, open_since t) else (true, probing)
  ask probing now = (false, probing)

  unfoldable pub fail : Phase → ℕ → Phase
  fail (closed_after n) now =
      if o.failure_threshold ≤? n + 1 then open_since now else closed_after (n + 1)
  fail (open_since t) now = open_since now
  fail probing now = open_since now

-- The calls that the code makes of a breaker.
pub data Event : Type 0 where
  requests : ℕ → Event
  succeeds : Event
  fails : ℕ → Event

-- The answers to the requests of a history.
unfoldable pub answers : CircuitBreaker → List Event → List Bool
answers b [] = []
answers b (requests now ∷ es) = (can_request b now).0 ∷ answers (can_request b now).1 es
answers b (succeeds ∷ es) = answers (record_success b) es
answers b (fails now ∷ es) = answers (record_failure b now) es

unfoldable pub spec_answers : CircuitBreakerOptions → Phase → List Event → List Bool
spec_answers o p [] = []
spec_answers o p (requests now ∷ es) = (ask o p now).0 ∷ spec_answers o (ask o p now).1 es
spec_answers o p (succeeds ∷ es) = spec_answers o (closed_after 0) es
spec_answers o p (fails now ∷ es) = spec_answers o (fail o p now) es
