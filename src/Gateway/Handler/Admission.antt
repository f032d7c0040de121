-- ===== src/Gateway/Handler/Admission.antt =====
-- Which requests reach an upstream, and which change the gateway's state.
use apigateaway.Common.{
  ◌≡◌, refl, ◌⊎◌, inl, inr, Bool, true, false, not, ◌&&◌, ◌||◌, Option, none, some, Text,
  Bool-cases, Option-cases, is_cons,
}
use apigateaway.Config.{RouteConfig}
use apigateaway.Auth.{AuthAnswer, AuthOutcome, let_in, unauthorized, misconfigured, thrown}
use apigateaway.Routing.{split_url, normalize_host, match_route}
use apigateaway.WebSocket.Handshake.{is_websocket_handshake}
use apigateaway.Gateway.Runtime.{RuntimeState}
use apigateaway.Gateway.Exchange.{Request, World, Handled}
use apigateaway.Gateway.Checks.{
  preflight_of, upgrade_refusal, prepared, Limited, passes, stops, limit_request,
}
use apigateaway.Gateway.Handler.{
  of_limited, of_answer, authenticated, admit_request, handle_on, route_request, handle,
}

-- An upstream was asked, over HTTP or with a handshake.
abbrev pub reaches : Handled → Bool
reaches h = is_cons h.asked || is_cons h.handshakes

abbrev pub route_for : RuntimeState → Request → Option RouteConfig
route_for state request =
    match_route state.config.routes request.method (split_url request.url).0
      (normalize_host request.hostname)

module _ (world : World) where
  -- The limits of the route let the request pass.
  abbrev pub IsWithinLimits : RuntimeState → RouteConfig → Request → AuthOutcome → Type 0
  IsWithinLimits state route request outcome =
      (acts : _) × (state' : RuntimeState) × (limit_request world.limited_at route state request.ip
          outcome
        ≡ passes acts state')

  -- The authentication of the route lets the request in, after the token is taken out of its URL.
  abbrev pub IsLetIn : RouteConfig → Request → AuthOutcome → Type 0
  IsLetIn route request outcome =
      (authenticated world route (prepared world.decode route request)).0 ≡ let_in outcome

  of_limited-reaches :
      (route : RouteConfig) (request : Request) (host tenant_id : Option Text) (l : Limited)
      → reaches (of_limited world route request host tenant_id l) ≡ true
      → (acts : _) × (state' : RuntimeState) × (l ≡ passes acts state')
  of_limited-reaches route request host tenant_id (stops acts state) h = cc
  of_limited-reaches route request host tenant_id (passes acts state) h = (acts, state, refl)

  of_answer-reaches :
      (state : RuntimeState) (route : RouteConfig) (request : Request) (host : Option Text)
      (answer : AuthAnswer)
      → reaches (of_answer world state route request host answer) ≡ true
      → (outcome : AuthOutcome) × (answer ≡ let_in outcome)
        × IsWithinLimits state route request outcome
  of_answer-reaches state route request host (let_in outcome) h =
      (outcome, refl, of_limited-reaches route request host outcome.tenant_id _ h)
  of_answer-reaches state route request host unauthorized h = cc
  of_answer-reaches state route request host misconfigured h = cc
  of_answer-reaches state route request host thrown h = cc

  of_answer-state :
      (state : RuntimeState) (route : RouteConfig) (request : Request) (host : Option Text)
      (answer : AuthAnswer)
      → ((of_answer world state route request host answer).state ≡ state)
        ⊎ ((outcome : AuthOutcome) × (answer ≡ let_in outcome))
  of_answer-state state route request host (let_in outcome) = inr (outcome, refl)
  of_answer-state state route request host unauthorized = inl refl
  of_answer-state state route request host misconfigured = inl refl
  of_answer-state state route request host thrown = inl refl

  -- What is shown of a request that the handler admits holds of one that it handles, if it holds of
  -- those that it stops before.
  pub handle_cases :
      (P : Handled → Type 0) (state : RuntimeState) (request : Request)
      → ((h : Handled) → reaches h ≡ false → h.state ≡ state → h.tenant_id ≡ none → P h)
      → ((route : RouteConfig)
          → route_for state request ≡ some route
          → P (
              admit_request world state route
                (prepared world.decode route request)
                (normalize_host request.hostname)))
      → P (handle world state request)
  unfolding handle route_request handle_on
  handle_cases P state request stop go =
      elim (Bool-cases (request.upgrade && not (is_websocket_handshake request.headers))) [
        | inl e ↦ rw (e, handle) (stop _ refl refl refl)
        | inr e ↦
            rw (e, handle)
              (elim (Option-cases (
                preflight_of state.config.routes request (split_url request.url).0
                  (normalize_host request.hostname))) [
                    | inr (p, q) ↦ rw (q, route_request) (stop _ refl refl refl)
                    | inl q ↦ elim (Option-cases (route_for state request)) [
                      | inl m ↦ rw (q, m, route_request) (stop _ refl refl refl)
                      | inr (route, m) ↦ rw (q, m, route_request) (on route m)
                    ]
                  ])
      ]
    where
      on :
          (route : RouteConfig)
          → route_for state request ≡ some route
          → P (handle_on world state route request (normalize_host request.hostname))
      on route m = elim (Bool-cases request.upgrade) [
        | inl u ↦ elim (Option-cases (upgrade_refusal route request)) [
          | inl e ↦ simp (u, e, handle_on) (go route m)
          | inr (r, e) ↦ simp (u, e, handle_on) (stop _ refl refl refl)
        ]
        | inr u ↦ simp (u, handle_on) (go route m)
      ]

  -- The route and the outcome with which a request is let in.
  abbrev pub IsAdmitted : RuntimeState → Request → Type 0
  IsAdmitted state request =
      (route : RouteConfig) × (outcome : AuthOutcome) × (route_for state request ≡ some route)
      × IsLetIn route request outcome

  -- A request for which an upstream is asked, over HTTP or with a handshake, has matched a route, is
  -- let in by the authentication of that route, and is within its limits.
  pub handle-reaches :
      (state : RuntimeState) (request : Request)
      → reaches (handle world state request) ≡ true
      → (route : RouteConfig) × (outcome : AuthOutcome) × (route_for state request ≡ some route)
        × IsLetIn route request outcome
        × IsWithinLimits state route (prepared world.decode route request) outcome
  unfolding admit_request
  handle-reaches state request =
      handle_cases
        (λ h.
          reaches h ≡ true
          → (route : RouteConfig) × (outcome : AuthOutcome) × (route_for state request ≡ some route)
            × IsLetIn route request outcome
            × IsWithinLimits state route (prepared world.decode route request) outcome)
        state request (λ h e s t r. cc)
        (λ route m r.
          let (outcome, e, l) =
            of_answer-reaches state route (prepared world.decode route request) _ _ r in
          (route, outcome, m, e, l))

  -- A request leaves the stores, the caches and the balancers as they are, unless it has matched a
  -- route whose authentication lets it in.
  pub handle-state :
      (state : RuntimeState) (request : Request)
      → ((handle world state request).state ≡ state) ⊎ IsAdmitted state request
  unfolding admit_request
  handle-state state request =
      handle_cases (λ h. (h.state ≡ state) ⊎ IsAdmitted state request) state request
        (λ h e s t. inl s)
        (λ route m.
          elim (of_answer-state state route (prepared world.decode route request)
            (normalize_host request.hostname)
            (authenticated world route (prepared world.decode route request)).0) [
              | inl s ↦ inl s
              | inr (outcome, e) ↦ inr (route, outcome, m, e)
            ])
