-- ===== src/Gateway/Run/Grows.antt =====
-- A request changes no configuration and no targets of a balancer.
use apigateaway.Common.{
  ◌≡◌, refl, sym, ap, subst, ◌∙◌, text_eq, eq_of_text_eq, Option, none, some, List, [], ◌∷◌, Text,
  Bool-cases, Option-cases, inl, inr, lookup,
}
use apigateaway.Config.{RouteConfig}
use apigateaway.Auth.{AuthAnswer, AuthOutcome, let_in, unauthorized, misconfigured, thrown}
use apigateaway.Balancer.{Balancer}
use apigateaway.Proxy.Retry.{Outcome, responded, failed, no_healthy_target}
use apigateaway.RateLimit.Enforce.{Enforced}
use apigateaway.RateLimit.Store.{MemoryStore}
use apigateaway.Cache.Store.{CachedResponse, Entries, get}
use apigateaway.Gateway.Runtime.{RuntimeState}
use apigateaway.Gateway.Runtime.Served.{targets_in, urls_at, targets_for, IsServed, urls_at-insert}
use apigateaway.Balancer.Targets.{urls}
use apigateaway.Proxy.Retry.Targets.{urls-forward_with_retry}
use apigateaway.WebSocket.Connect.Targets.{urls-proxy_websocket}
use apigateaway.Gateway.Exchange.{Request, World, Handled}
use apigateaway.Gateway.Checks.{Limited, passes, stops, limited_by, limit_request, prepared}
use apigateaway.Gateway.Handler.{
  Cached, with_entries, with_balancer, answer_outcome, forward, of_read, serve, serve_websocket,
  of_limited, of_answer, admit_request, handle,
}
use apigateaway.Gateway.Handler.Admission.{handle_cases}
use apigateaway.Http.{ReplyCall}
use apigateaway.Http.Limits.{enforce_header_limit, enforce_body_limit}
use apigateaway.Gateway.Hooks.{unless_sent, receive}

-- The configuration is the same, and so are the targets of the balancers.
pub record Grows (old new : RuntimeState) : Type 0 where
  pub config : new.config ≡ old.config
  pub keeps : (id : Text) → urls_at id new.balancers ≡ urls_at id old.balancers

pub Grows-refl : (state : RuntimeState) → Grows state state
Grows-refl state = record { config = refl; keeps = λ id. refl }

pub Grows-trans : (a b c : RuntimeState) → Grows a b → Grows b c → Grows a c
Grows-trans a b c f g = record {
  config = g.config ∙ f.config;
  keeps = λ id. g.keeps id ∙ f.keeps id;
}

pub Grows-stores :
    (state state' : RuntimeState)
    → state'.config ≡ state.config
    → state'.balancers ≡ state.balancers
    → Grows state state'
Grows-stores state state' e f = record { config = e; keeps = λ id. ap (urls_at id) f }

Grows-balancer :
    (k : Text) (b b' : Balancer) (state : RuntimeState)
    → lookup k state.balancers ≡ some b
    → urls b' ≡ urls b
    → Grows state (with_balancer k b' state)
Grows-balancer k b b' state found same = record {
  config = refl;
  keeps = λ id. urls_at-insert id k b' state.balancers ∙ elim (Bool-cases (text_eq k id)) [
    | inr e ↦ rw e refl
    | inl e ↦ rw e (
        let at_id : lookup id state.balancers ≡ some b =
          subst (λ j. lookup j state.balancers ≡ some b) (eq_of_text_eq k id e) found in
        ap some same ∙ sym (ap targets_in at_id))
  ];
}

-- Every route is served also in a state that has grown.
pub IsServed-Grows : (old new : RuntimeState) → Grows old new → IsServed old → IsServed new
IsServed-Grows old new g h id = g.keeps id ∙ h id ∙ ap (λ c. targets_for id c.routes) (sym g.config)

Grows-answer_outcome :
    (world : World) (route : RouteConfig) (cached : Option Cached) (state : RuntimeState)
    (outcome : Outcome)
    → Grows state (answer_outcome world route cached state outcome).1
unfolding answer_outcome
Grows-answer_outcome world route cached state (failed e) = Grows-refl state
Grows-answer_outcome world route cached state no_healthy_target = Grows-refl state
Grows-answer_outcome world route none state (responded r) = Grows-refl state
Grows-answer_outcome world route (some c) state (responded r) = Grows-stores state _ refl refl

abbrev StateGrows : RuntimeState → Limited → Type 0
StateGrows state (passes acts state') = Grows state state'
StateGrows state (stops acts state') = Grows state state'

limited_by-StateGrows :
    (route : RouteConfig) (state : RuntimeState) (o : Option (Enforced × MemoryStore))
    → StateGrows state (limited_by route state o)
limited_by-StateGrows route state none = Grows-refl state
limited_by-StateGrows route state (some (e, store)) = elim (Bool-cases e.passes) [
  | inl p ↦ rw p (Grows-stores state _ refl refl)
  | inr p ↦ rw p (Grows-stores state _ refl refl)
]

limit_request-StateGrows :
    (now : _) (route : RouteConfig) (state : RuntimeState) (ip : Text) (outcome : AuthOutcome)
    → StateGrows state (limit_request now route state ip outcome)
unfolding limit_request
limit_request-StateGrows now route state ip outcome = elim (Option-cases route.rate_limit) [
  | inl e ↦ rw (e, limit_request) (Grows-refl state)
  | inr (limit, e) ↦ elim (Option-cases (lookup route.id state.rate_limit_stores)) [
    | inl l ↦ rw (e, l, limit_request) (Grows-refl state)
    | inr (store, l) ↦ rw (e, l, limit_request) (limited_by-StateGrows route state _)
  ]
]

module _ (world : World) where
  Grows-forward :
      (state : RuntimeState) (route : RouteConfig) (request : Request) (tenant_id : Option Text)
      (cached : Option Cached)
      → Grows state (forward world state route request tenant_id cached).state
  unfolding forward
  Grows-forward state route request tenant_id cached =
      elim (Option-cases (lookup route.id state.balancers)) [
        | inl e ↦ rw (e, forward) (Grows-refl state)
        | inr (b, e) ↦
            rw (e, forward)
              (Grows-trans _ _ _
                (Grows-balancer route.id b _ state e
                  (urls-forward_with_retry _ route.retry request.method _ b))
                (Grows-answer_outcome world route cached _ _))
      ]

  Grows-of_read :
      (state : RuntimeState) (route : RouteConfig) (request : Request) (tenant_id : Option Text)
      (c : Cached) (read : Option CachedResponse × Entries)
      → Grows state (of_read world state route request tenant_id c read).state
  Grows-of_read state route request tenant_id c (some response, entries) =
      Grows-stores state _ refl refl
  Grows-of_read state route request tenant_id c (none, entries) =
      Grows-trans _ _ _ (Grows-stores state (with_entries route.id entries state) refl refl)
        (Grows-forward _ route request tenant_id _)

  Grows-serve :
      (state : RuntimeState) (route : RouteConfig) (request : Request) (tenant_id : Option Text)
      (cached : Option Cached)
      → Grows state (serve world state route request tenant_id cached).state
  unfolding serve
  Grows-serve state route request tenant_id none = Grows-forward state route request tenant_id none
  Grows-serve state route request tenant_id (some c) =
      Grows-of_read state route request tenant_id c (get c.entries c.key world.read_at)

  Grows-serve_websocket :
      (state : RuntimeState) (route : RouteConfig) (request : Request) (tenant_id : Option Text)
      → Grows state (serve_websocket world state route request tenant_id).state
  unfolding serve_websocket
  Grows-serve_websocket state route request tenant_id =
      elim (Option-cases (lookup route.id state.balancers)) [
        | inl e ↦ rw (e, serve_websocket) (Grows-refl state)
        | inr (b, e) ↦ elim (Option-cases route.websocket) [
          | inl w ↦ rw (e, w, serve_websocket) (Grows-refl state)
          | inr (cfg, w) ↦
              rw (e, w, serve_websocket)
                (Grows-balancer route.id b _ state e (urls-proxy_websocket _ _ route cfg b _ _ _ _))
        ]
      ]

  Grows-of_limited :
      (state : RuntimeState) (route : RouteConfig) (request : Request)
      (host tenant_id : Option Text) (l : Limited)
      → StateGrows state l
      → Grows state (of_limited world route request host tenant_id l).state
  Grows-of_limited state route request host tenant_id (stops acts state') g = g
  Grows-of_limited state route request host tenant_id (passes acts state') g =
      Grows-trans _ _ _ g (elim (Bool-cases request.upgrade) [
        | inl u ↦ simp u (Grows-serve_websocket state' route request _)
        | inr u ↦ simp u (Grows-serve state' route request _ _)
      ])

  Grows-of_answer :
      (state : RuntimeState) (route : RouteConfig) (request : Request) (host : Option Text)
      (answer : AuthAnswer)
      → Grows state (of_answer world state route request host answer).state
  Grows-of_answer state route request host (let_in outcome) =
      Grows-of_limited state route request host outcome.tenant_id _
        (limit_request-StateGrows world.limited_at route state request.ip outcome)
  Grows-of_answer state route request host unauthorized = Grows-refl state
  Grows-of_answer state route request host misconfigured = Grows-refl state
  Grows-of_answer state route request host thrown = Grows-refl state

  Grows-handle :
      (state : RuntimeState) (request : Request) → Grows state (handle world state request).state
  unfolding admit_request
  Grows-handle state request =
      handle_cases world (λ h. Grows state h.state) state request
        (λ h e s t. subst (Grows state) (sym s) (Grows-refl state))
        (λ route m. Grows-of_answer state route (prepared world.decode route request) _ _)

  unless_sent-Grows :
      (state : RuntimeState) (calls : List ReplyCall) (h : Handled)
      → Grows state h.state
      → Grows state (unless_sent state calls h).state
  unless_sent-Grows state [] h g = g
  unless_sent-Grows state (call ∷ calls) h g = Grows-refl state

  pub Grows-receive :
      (state : RuntimeState) (request : Request) → Grows state (receive world state request).state
  unfolding receive
  Grows-receive state request =
      let header_calls =
        enforce_header_limit state.config.server.max_header_count request.headers in
      let body_calls = enforce_body_limit state.config.server.max_body_bytes request.headers in
      let handled = handle world state request in
      unless_sent-Grows state header_calls (unless_sent state body_calls handled)
        (unless_sent-Grows state body_calls handled (Grows-handle state request))
