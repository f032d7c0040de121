-- ===== src/Tests/Upstream.antt =====
-- The breaker, the balancer, the headers and the retries at concrete inputs.
use apigateaway.Common.{
  ◌≡◌, refl, true, false, Option, none, some, List, [], ◌∷◌, lit, find, lookup, ends_with, arith,
}
use mathlib.Core.Option
use apigateaway.Breaker.{CircuitBreaker, CircuitBreakerOptions, new_breaker, open_}
use apigateaway.Breaker.Spec.{closed_after, Event, requests, succeeds, fails, answers, spec_answers}
use apigateaway.Breaker.Laws.{answers-spec_answers}
use apigateaway.Balancer.{Balancer, TargetState, pick_target}
use apigateaway.Balancer.Laws.{in_turn, is_available, pick_target-in_turn}
use apigateaway.Config.{RetryConfig, RequestTransform}
use apigateaway.Proxy.Headers.{
  one, IncomingHeaders, header, forwarded_for, build_outgoing_headers, apply_request_transform,
}
use apigateaway.Gateway.Exchange.{request_id_of}
use apigateaway.Gateway.Exchange.Laws.{outgoing-IsPropagated}
use apigateaway.Proxy.Retry.{
  Environment, Attempt, threw, body_too_large, other, max_attempts, backoff_of, forward_with_retry,
}
use apigateaway.Proxy.Retry.Laws.{Justified, sole, forward_with_retry-Justified, trial_lost}

abbrev options : CircuitBreakerOptions
options = record { failure_threshold = 2; reset_timeout_ms = 1000 }

abbrev events : List Event
events =
    requests 0
    ∷ fails 1
    ∷ fails 2
    ∷ requests 3
    ∷ requests 1002
    ∷ requests 1003
    ∷ succeeds
    ∷ requests 1004
    ∷ []

answers-spec_answers_example :
    answers (new_breaker options) events ≡ spec_answers options (closed_after 0) events
answers-spec_answers_example = answers-spec_answers options events (omega arith)

abbrev tripped : CircuitBreaker
tripped = record {
  options = options;
  state = open_;
  consecutive_failures = 2;
  opened_at = 2;
  half_open_trial_in_flight = false;
}

abbrev targets : List TargetState
targets =
    record { url = lit "http://a"; healthy = true; breaker = none }
    ∷ record { url = lit "http://b"; healthy = true; breaker = none }
    ∷ []

abbrev two : Balancer
two = record { targets = targets; cursor = 1 }

pick_target-in_turn_example :
    (pick_target two 0).0
    ≡ Option.map (λ (t : TargetState). t.url) (find (is_available 0) (in_turn two))
pick_target-in_turn_example = pick_target-in_turn two 0 (omega arith)

abbrev headers : IncomingHeaders
headers =
    (lit "accept", some (one (lit "text/html")))
    ∷ (lit "te", some (one (lit "gzip")))
    ∷ (lit "x-request-id", some (one (lit "r1")))
    ∷ (lit "x-forwarded-for", some (one (lit "1.2.3.4")))
    ∷ []

-- A transform that writes an id of its own.
abbrev transform : Option RequestTransform
transform = some (record {
  set_headers = (lit "X-Request-Id", lit "t") ∷ [];
  remove_headers = lit "accept" ∷ [];
})

outgoing-IsPropagated_example :
    let transformed = apply_request_transform transform headers in
    let out =
      build_outgoing_headers transformed (lit "10.0.0.1") (request_id_of headers (lit "g")) in
    let address = forwarded_for (header (lit "x-forwarded-for") transformed) (lit "10.0.0.1") in
    (lookup (lit "x-request-id") out ≡ some (one (lit "r1")))
    × (lookup (lit "x-forwarded-for") out ≡ some (one address))
    × (ends_with address (lit "10.0.0.1") ≡ true)
    × (lookup (lit "x-forwarded-proto") out ≡ some (one (lit "http")))
outgoing-IsPropagated_example = outgoing-IsPropagated transform headers (lit "10.0.0.1") (lit "g")

-- Every attempt fails, by an error of the connection or by a body that is too large.
abbrev always_failing : Attempt → Environment
always_failing a = record {
  forward = λ attempt target. a;
  picked_at = λ attempt. 5000;
  known_at = λ attempt. 5001;
  random = λ attempt. 0;
}

abbrev twice : Option RetryConfig
twice = some (record { attempts = 2; backoff_ms = 100 })

forward_with_retry-Justified_example :
    let f = forward_with_retry (always_failing (threw other)) twice (lit "GET") none two in
    Justified
      (always_failing (threw other))
      (backoff_of twice)
      (max_attempts twice (lit "GET"))
      1
      f.tried
      f.outcome
forward_with_retry-Justified_example =
    forward_with_retry-Justified (always_failing (threw other)) twice (lit "GET") two

trial_lost_example :
    let b =
      (forward_with_retry
        (always_failing (threw body_too_large))
        none
        (lit "POST")
        none
        (sole (lit "http://a") tripped)).balancer in
    pick_target b 99999 ≡ (none, b)
trial_lost_example =
    trial_lost (always_failing (threw body_too_large)) none (lit "POST") (lit "http://a") tripped
      99999 refl (omega arith) refl
