-- ===== src/Gateway/Runtime/Served.antt =====
-- The balancers of a configuration are over the targets of its routes.
use apigateaway.Common.{
  ◌≡◌, refl, ap, ◌∙◌, Option, none, some, List, [], ◌∷◌, Text, text_eq, if◌then◌else◌, Bool-cases,
  inl, inr, Dict, lookup, insert, lookup-insert,
}
use apigateaway.Config.{GatewayConfig, RouteConfig}
use apigateaway.Balancer.{Balancer}
use apigateaway.Balancer.Targets.{urls, urls-create_balancer}
use apigateaway.Gateway.Runtime.{RuntimeState, balancer_of, create_balancers, build_runtime_state}

-- The targets of the balancer that is found.
abbrev pub targets_in : Option Balancer → Option (List Text)
targets_in none = none
targets_in (some b) = some (urls b)

-- The targets of what `balancers.get(id)` finds.
abbrev pub urls_at : Text → Dict Balancer → Option (List Text)
urls_at id balancers = targets_in (lookup id balancers)

abbrev first_of : Option (List Text) → Option (List Text) → Option (List Text)
first_of none targets = targets
first_of (some targets) others = some targets

-- The configured targets of the last route that has the id.
abbrev pub targets_for : Text → List RouteConfig → Option (List Text)
targets_for id [] = none
targets_for id (route ∷ routes) =
    first_of (targets_for id routes)
      (if text_eq route.id id then some route.upstream.targets else none)

-- An id has a balancer exactly if a route of the configuration has the id, and the balancer is over
-- the targets of that route, or of the last one if there are several.
abbrev pub IsServed : RuntimeState → Type 0
IsServed state = (id : Text) → urls_at id state.balancers ≡ targets_for id state.config.routes

pub urls_at-insert :
    (id k : Text) (b : Balancer) (m : Dict Balancer)
    → urls_at id (insert k b m) ≡ (if text_eq k id then some (urls b) else urls_at id m)
urls_at-insert id k b m = elim (Bool-cases (text_eq k id)) [
  | inl e ↦ rw (lookup-insert k id b m, e) refl
  | inr e ↦ rw (lookup-insert k id b m, e) refl
]

first_of_assoc :
    (a b c : Option (List Text)) → first_of a (first_of b c) ≡ first_of (first_of a b) c
first_of_assoc none b c = refl
first_of_assoc (some x) b c = refl

urls_at-first_of :
    (id : Text) (route : RouteConfig) (m : Dict Balancer)
    → urls_at id (insert route.id (balancer_of route) m)
      ≡ first_of (if text_eq route.id id then some route.upstream.targets else none) (urls_at id m)
urls_at-first_of id route m =
    let made = urls-create_balancer route.upstream.targets route.circuit_breaker in
    urls_at-insert id route.id (balancer_of route) m
    ∙ elim (Bool-cases (text_eq route.id id)) [ inl e ↦ rw e (ap some made) | inr e ↦ rw e refl ]

urls_at-create_balancers :
    (id : Text) (routes : List RouteConfig) (m : Dict Balancer)
    → urls_at id (create_balancers routes m) ≡ first_of (targets_for id routes) (urls_at id m)
unfolding create_balancers
urls_at-create_balancers id [] m = refl
urls_at-create_balancers id (r ∷ rs) m =
    urls_at-create_balancers id rs (insert r.id (balancer_of r) m)
    ∙ ap (first_of (targets_for id rs)) (urls_at-first_of id r m)
    ∙ first_of_assoc (targets_for id rs) _ (urls_at id m)

first_of-none : (a : Option (List Text)) → first_of a none ≡ a
first_of-none none = refl
first_of-none (some x) = refl

pub build_runtime_state-IsServed : (config : GatewayConfig) → IsServed (build_runtime_state config)
unfolding build_runtime_state
build_runtime_state-IsServed config id =
    urls_at-create_balancers id config.routes [] ∙ first_of-none (targets_for id config.routes)
