-- ===== src/Balancer.antt =====
-- packages/gateway/src/proxy/balancer.ts
-- The time that `Date.now()` reads is an argument; the outcome of a probe's request is one, too.
pub mod Laws
pub mod Targets
use apigateaway.Common.{
  ℕ, suc, zero, ◌+◌, ◌%◌, Bool, true, false, ◌&&◌, Option, none, some, List, [], ◌∷◌, map,
  if◌then◌else◌, ◌<?◌, ◌≤?◌, Text, text_eq, length, get_elem?, set,
}
use mathlib.Core.Option
use apigateaway.Breaker.{
  CircuitState, CircuitBreaker, CircuitBreakerOptions, new_breaker, can_request, record_success,
  record_failure,
}

pub record TargetState : Type 0 where
  pub url : Text
  pub healthy : Bool
  pub breaker : Option CircuitBreaker

pub record Balancer : Type 0 where
  pub targets : List TargetState
  pub cursor : ℕ

-- `route.circuitBreaker ? new CircuitBreaker(route.circuitBreaker) : undefined`
abbrev pub breaker_for : Option CircuitBreakerOptions → Option CircuitBreaker
breaker_for none = none
breaker_for (some options) = some (new_breaker options)

abbrev pub new_target : Option CircuitBreakerOptions → Text → TargetState
new_target options url = record { url = url; healthy = true; breaker = breaker_for options }

-- `createBalancer(route)`, from the route's targets and circuit breaker
unfoldable pub create_balancer : List Text → Option CircuitBreakerOptions → Balancer
create_balancer urls options = record { targets = map (new_target options) urls; cursor = 0 }

-- `target.breaker && !target.breaker.canRequest()`, negated, with the breaker after the call
abbrev pub admit_breaker : Option CircuitBreaker → ℕ → Bool × Option CircuitBreaker
admit_breaker none now = (true, none)
admit_breaker (some b) now = let (answer, b') = can_request b now in (answer, some b')

-- The two tests of the loop: a target that is not healthy does not ask its breaker.
unfoldable pub admit : TargetState → ℕ → Bool × TargetState
admit t now =
    if t.healthy
    then (let (answer, breaker') = admit_breaker t.breaker now in
        (answer, record t { breaker = breaker' }))
    else (false, t)

-- The loop of `pickTarget` from round `i` on, with the rounds left.
unfoldable pub pick_from : ℕ → ℕ → Balancer → ℕ → Option Text × Balancer
pick_from zero i b now = (none, b)
pick_from (suc rounds) i b now =
    let index = (b.cursor + i) % length b.targets in
    elim (get_elem? b.targets index) [
      | none ↦ (none, b)
      | some t ↦
          let (answer, t') = admit t now in
          let targets' = set b.targets index t' in
          let rest = pick_from rounds (i + 1) (record b { targets = targets' }) now in
          if answer
          then (some t.url, record { targets = targets'; cursor = (index + 1) % length b.targets })
          else rest
    ]

unfoldable pub pick_target : Balancer → ℕ → Option Text × Balancer
pick_target b now = pick_from (length b.targets) 0 b now

-- `targets.find((target) => target.url === url)?.breaker`, and a call that changes the breaker
unfoldable pub update_first :
    (CircuitBreaker → CircuitBreaker) → Text → List TargetState → List TargetState
update_first f url [] = []
update_first f url (t ∷ ts) =
    if text_eq t.url url
    then record t { breaker = Option.map f t.breaker } ∷ ts
    else t ∷ update_first f url ts

unfoldable pub report_success : Balancer → Text → Balancer
report_success b url = record b { targets = update_first record_success url b.targets }

unfoldable pub report_failure : Balancer → Text → ℕ → Balancer
report_failure b url now = record b {
  targets = update_first (λ c. record_failure c now) url b.targets;
}

-- `probe`, once its request has ended: with a status code, or with an exception (none)
abbrev pub probe_healthy : Option ℕ → Bool
probe_healthy none = false
probe_healthy (some status) = (200 ≤? status) && (status <? 400)

unfoldable pub probe_target : Balancer → ℕ → Option ℕ → Balancer
probe_target b index outcome = elim (get_elem? b.targets index) [
  | none ↦ b
  | some t ↦ record b {
    targets = set b.targets index (record t { healthy = probe_healthy outcome });
  }
]

pub record TargetSnapshot : Type 0 where
  pub url : Text
  pub healthy : Bool
  pub circuit_state : Option CircuitState

abbrev pub snapshot : TargetState → TargetSnapshot
snapshot t = record {
  url = t.url;
  healthy = t.healthy;
  circuit_state = Option.map (λ (b : CircuitBreaker). b.state) t.breaker;
}

unfoldable pub get_target_states : Balancer → List TargetSnapshot
get_target_states b = map snapshot b.targets
