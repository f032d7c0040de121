-- ===== src/Gateway/Handler/Once.antt =====
-- A request to the gateway is ended once, whichever way it takes.
use apigateaway.Common.{
  ◌≡◌, refl, ◌∙◌, Option, none, some, List, map, Text, Bool-cases, not, ◌&&◌, Option-cases, inl,
  inr, lookup,
}
use apigateaway.Config.{RouteConfig}
use apigateaway.Auth.{AuthEffect, AuthAnswer, let_in, unauthorized, misconfigured, thrown}
use apigateaway.Proxy.Retry.{other}
use apigateaway.Proxy.Errors.{attempt_failed}
use apigateaway.Proxy.Headers.{apply_request_transform}
use apigateaway.Routing.{rewrite_path, split_url, normalize_host, match_route}
use apigateaway.Gateway.Checks.{upgrade_refusal, preflight_of}
use apigateaway.Cache.Store.{CachedResponse, Entries, get}
use apigateaway.WebSocket.Handshake.{is_websocket_handshake}
use apigateaway.WebSocket.Connect.{Proxied}
use apigateaway.Gateway.Runtime.{RuntimeState}
use apigateaway.Gateway.Exchange.{Request, World, auth_wrote, upstream_error}
use apigateaway.Gateway.Checks.{Limited, passes, stops}
use apigateaway.Gateway.Handler.{
  Cached, forward, of_read, serve, of_proxied, proxied_for, serve_websocket, of_limited, of_answer,
  of_authenticated, authenticated, admit_request, handle_on, route_request, handle,
}
use apigateaway.Gateway.Handler.Ends.{
  ends, ends-after, ends-auth_wrote, ends-upstream_error, ends-error_acts, ends-preflight,
  EndsRight, limit_request-EndsRight, ends-hit_acts, SendsOnce, ends-websocket_acts,
  proxy_websocket-SendsOnce, ends-answer_outcome,
}

module _ (world : World) where
  ends-forward :
      (state : RuntimeState) (route : RouteConfig) (request : Request) (tenant_id : Option Text)
      (cached : Option Cached)
      → ends (forward world state route request tenant_id cached).acts ≡ 1
  unfolding forward
  ends-forward state route request tenant_id cached =
      elim (Option-cases (lookup route.id state.balancers)) [
        | inl e ↦ rw (e, forward) (ends-error_acts route.id (attempt_failed other))
        | inr (b, e) ↦ rw (e, forward) (ends-answer_outcome world route cached _ _)
      ]

  ends-of_read :
      (state : RuntimeState) (route : RouteConfig) (request : Request) (tenant_id : Option Text)
      (c : Cached) (read : Option CachedResponse × Entries)
      → ends (of_read world state route request tenant_id c read).acts ≡ 1
  ends-of_read state route request tenant_id c (some response, entries) =
      ends-hit_acts route.id response
  ends-of_read state route request tenant_id c (none, entries) =
      ends-forward _ route request tenant_id _

  ends-serve :
      (state : RuntimeState) (route : RouteConfig) (request : Request) (tenant_id : Option Text)
      (cached : Option Cached)
      → ends (serve world state route request tenant_id cached).acts ≡ 1
  unfolding serve
  ends-serve state route request tenant_id none = ends-forward state route request tenant_id none
  ends-serve state route request tenant_id (some c) =
      ends-of_read state route request tenant_id c (get c.entries c.key world.read_at)

  ends-of_proxied :
      (route : RouteConfig) (tenant_id : Option Text) (state : RuntimeState) (p : Proxied)
      → SendsOnce p.answer
      → ends (of_proxied world route tenant_id state p).acts ≡ 1
  ends-of_proxied route tenant_id state p h =
      ends-after (map (upstream_error route.id) p.upstream_errors) _
        (ends-upstream_error route.id p.upstream_errors)
      ∙ ends-websocket_acts route.id p.answer h

  ends-serve_websocket :
      (state : RuntimeState) (route : RouteConfig) (request : Request) (tenant_id : Option Text)
      → ends (serve_websocket world state route request tenant_id).acts ≡ 1
  unfolding serve_websocket
  ends-serve_websocket state route request tenant_id =
      elim (Option-cases (lookup route.id state.balancers)) [
        | inl e ↦ rw (e, serve_websocket) (ends-error_acts route.id (attempt_failed other))
        | inr (b, e) ↦ elim (Option-cases route.websocket) [
          | inl w ↦ rw (e, w, serve_websocket) refl
          | inr (cfg, w) ↦
              rw (e, w, serve_websocket)
                (ends-of_proxied route tenant_id state (proxied_for world route request cfg b) (
                  proxy_websocket-SendsOnce world.websocket world.connections route cfg b
                    (rewrite_path request.url route.strip_prefix)
                    (apply_request_transform route.transform request.headers) request.ip
                    request.request_id))
        ]
      ]

  ends-of_limited :
      (route : RouteConfig) (request : Request) (host tenant_id : Option Text) (l : Limited)
      → EndsRight l
      → ends (of_limited world route request host tenant_id l).acts ≡ 1
  ends-of_limited route request host tenant_id (stops acts state) h = h
  ends-of_limited route request host tenant_id (passes acts state) h =
      ends-after acts _ h ∙ elim (Bool-cases request.upgrade) [
        | inl u ↦ simp u (ends-serve_websocket state route request _)
        | inr u ↦ simp u (ends-serve state route request _ _)
      ]

  ends-of_answer :
      (state : RuntimeState) (route : RouteConfig) (request : Request) (host : Option Text)
      (answer : AuthAnswer)
      → ends (of_answer world state route request host answer).acts ≡ 1
  ends-of_answer state route request host (let_in outcome) =
      ends-of_limited route request host outcome.tenant_id _
        (limit_request-EndsRight world.limited_at route state request.ip outcome)
  ends-of_answer state route request host unauthorized = refl
  ends-of_answer state route request host misconfigured = refl
  ends-of_answer state route request host thrown = refl

  ends-of_authenticated :
      (state : RuntimeState) (route : RouteConfig) (request : Request) (host : Option Text)
      (answer : AuthAnswer × List AuthEffect)
      → ends (of_authenticated world state route request host answer).acts ≡ 1
  ends-of_authenticated state route request host (answer, effects) =
      ends-after (map auth_wrote effects) _ (ends-auth_wrote effects)
      ∙ ends-of_answer state route request host answer

  ends-admit_request :
      (state : RuntimeState) (route : RouteConfig) (request : Request) (host : Option Text)
      → ends (admit_request world state route request host).acts ≡ 1
  unfolding admit_request
  ends-admit_request state route request host =
      ends-of_authenticated state route request host (authenticated world route request)

  ends-handle_on :
      (state : RuntimeState) (route : RouteConfig) (request : Request) (host : Option Text)
      → ends (handle_on world state route request host).acts ≡ 1
  unfolding handle_on
  ends-handle_on state route request host = elim (Bool-cases request.upgrade) [
    | inl u ↦ elim (Option-cases (upgrade_refusal route request)) [
      | inl e ↦ simp (u, e, handle_on) (ends-admit_request state route _ host)
      | inr ((status, error), e) ↦ simp (u, e, handle_on) refl
    ]
    | inr u ↦ simp (u, handle_on) (ends-admit_request state route _ host)
  ]

  ends-route_request :
      (state : RuntimeState) (request : Request) (path : Text) (host : Option Text)
      → ends (route_request world state request path host).acts ≡ 1
  unfolding route_request
  ends-route_request state request path host =
      elim (Option-cases (preflight_of state.config.routes request path host)) [
        | inr ((route, cors, origin), e) ↦ rw (e, route_request) (ends-preflight cors origin)
        | inl e ↦ elim (Option-cases (match_route state.config.routes request.method path host)) [
          | inl m ↦ rw (e, m, route_request) refl
          | inr (route, m) ↦ rw (e, m, route_request) (ends-handle_on state route request host)
        ]
      ]

  -- Every request is ended exactly once: one reply is sent, or the socket is bridged or destroyed,
  -- or one exception leaves the handler.
  pub handle-ends :
      (state : RuntimeState) (request : Request) → ends (handle world state request).acts ≡ 1
  unfolding handle
  handle-ends state request =
      elim (Bool-cases (request.upgrade && not (is_websocket_handshake request.headers))) [
        | inl e ↦ rw (e, handle) refl
        | inr e ↦
            rw (e, handle)
              (ends-route_request state request (split_url request.url).0
                (normalize_host request.hostname))
      ]
