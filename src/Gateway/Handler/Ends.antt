-- ===== src/Gateway/Handler/Ends.antt =====
-- How often the handler answers a request.
use apigateaway.Common.{
  ◌≡◌, refl, ap, ◌∙◌, ℕ, suc, ◌+◌, Bool, true, false, Option, none, some, List, [], ◌∷◌, ◌++◌, map,
  if◌then◌else◌, Text, Bool-cases, ◌≤?◌, Option-cases, inl, inr, lookup, arith,
}
use apigateaway.Config.{RouteConfig, CorsConfig}
use apigateaway.Http.{ReplyCall, header_set, sent, sends}
use apigateaway.Http.Cors.{apply_preflight_headers, apply_cors_response_headers, exposed_calls}
use apigateaway.Auth.{AuthEffect, AuthOutcome}
use apigateaway.RateLimit.Enforce.{Enforced}
use apigateaway.RateLimit.Enforce.Laws.{enforce_rate_limit-answers}
use apigateaway.RateLimit.Store.{MemoryStore}
use apigateaway.Proxy.Headers.{Headers}
use apigateaway.Proxy.Retry.{
  Outcome, responded, failed, no_healthy_target, body_too_large, upstream_timeout, other,
}
use apigateaway.Proxy.Errors.{ProxyError, attempt_failed, no_target, send_proxy_error}
use apigateaway.Balancer.{Balancer, pick_target}
use apigateaway.Config.{WebSocketConfig}
use apigateaway.Proxy.Headers.{IncomingHeaders}
use apigateaway.WebSocket.Registry.{TrackedConnection, count_for}
use apigateaway.WebSocket.Connect.{WebSocketWorld}
use apigateaway.Cache.Store.{CachedResponse}
use apigateaway.WebSocket.Connect.{
  WebSocketAnswer, answered_with, passed_back, destroyed, bridged, raised, proxy_websocket,
  on_connected, Connected, connected, rejected, client_aborted, failed_with,
}
use apigateaway.Gateway.Runtime.{RuntimeState}
use apigateaway.Gateway.Exchange.{
  World, Act, replied, header_copied, status_set, body_sent, auth_wrote, limit_decided, cache_hit,
  cache_miss, upstream_error, socket_destroyed, socket_bridged, escaped,
}
use apigateaway.Gateway.Checks.{
  Limited, passes, stops, limited_by, limit_request, error_acts, headers_copied, texts_copied,
  websocket_acts,
}
use apigateaway.Gateway.Handler.{Cached, hit_acts, answer_outcome, preflight_acts}

-- What ends a request: a reply that is sent, a socket that is taken over, or an exception.
abbrev pub ends : List Act → ℕ
ends [] = 0
ends (replied (header_set name value) ∷ acts) = ends acts
ends (replied (sent status error retry_after) ∷ acts) = suc (ends acts)
ends (header_copied name value ∷ acts) = ends acts
ends (status_set status ∷ acts) = ends acts
ends (body_sent body ∷ acts) = suc (ends acts)
ends (auth_wrote effect ∷ acts) = ends acts
ends (limit_decided route_id allowed ∷ acts) = ends acts
ends (cache_hit route_id ∷ acts) = ends acts
ends (cache_miss route_id ∷ acts) = ends acts
ends (upstream_error route_id reason ∷ acts) = ends acts
ends (socket_destroyed ∷ acts) = suc (ends acts)
ends (socket_bridged protocol ∷ acts) = suc (ends acts)
ends (escaped ∷ acts) = suc (ends acts)

suc-plus : (a b c : ℕ) → a ≡ b + c → suc a ≡ suc b + c
suc-plus a b c h = omega arith

ends-append : (xs ys : List Act) → ends (xs ++ ys) ≡ ends xs + ends ys
ends-append [] ys = omega arith
ends-append (replied (header_set name value) ∷ xs) ys = ends-append xs ys
ends-append (replied (sent status error retry_after) ∷ xs) ys = suc-plus _ _ _ (ends-append xs ys)
ends-append (header_copied name value ∷ xs) ys = ends-append xs ys
ends-append (status_set status ∷ xs) ys = ends-append xs ys
ends-append (body_sent body ∷ xs) ys = suc-plus _ _ _ (ends-append xs ys)
ends-append (auth_wrote effect ∷ xs) ys = ends-append xs ys
ends-append (limit_decided route_id allowed ∷ xs) ys = ends-append xs ys
ends-append (cache_hit route_id ∷ xs) ys = ends-append xs ys
ends-append (cache_miss route_id ∷ xs) ys = ends-append xs ys
ends-append (upstream_error route_id reason ∷ xs) ys = ends-append xs ys
ends-append (socket_destroyed ∷ xs) ys = suc-plus _ _ _ (ends-append xs ys)
ends-append (socket_bridged protocol ∷ xs) ys = suc-plus _ _ _ (ends-append xs ys)
ends-append (escaped ∷ xs) ys = suc-plus _ _ _ (ends-append xs ys)

-- Behind acts that end nothing.
pub ends-after : (xs ys : List Act) → ends xs ≡ 0 → ends (xs ++ ys) ≡ ends ys
ends-after xs ys h = step (ends-append xs ys)
  where
    step : ends (xs ++ ys) ≡ ends xs + ends ys → ends (xs ++ ys) ≡ ends ys
    step e = omega arith

ends-headers_copied : (headers : Headers) → ends (headers_copied headers) ≡ 0
ends-headers_copied [] = refl
ends-headers_copied ((name, value) ∷ rest) = ends-headers_copied rest

ends-texts_copied : (headers : List (Text × Text)) → ends (texts_copied headers) ≡ 0
ends-texts_copied [] = refl
ends-texts_copied ((name, value) ∷ rest) = ends-texts_copied rest

pub ends-auth_wrote : (effects : List AuthEffect) → ends (map auth_wrote effects) ≡ 0
ends-auth_wrote [] = refl
ends-auth_wrote (e ∷ es) = ends-auth_wrote es

pub ends-upstream_error :
    (id : Text) (reasons : List Text) → ends (map (upstream_error id) reasons) ≡ 0
ends-upstream_error id [] = refl
ends-upstream_error id (r ∷ rs) = ends-upstream_error id rs

ends-replied : (calls : List ReplyCall) → ends (map replied calls) ≡ sends calls
ends-replied [] = refl
ends-replied (header_set name value ∷ calls) = ends-replied calls
ends-replied (sent status error retry_after ∷ calls) = ap suc (ends-replied calls)

pub ends-error_acts : (id : Text) (e : ProxyError) → ends (error_acts id (send_proxy_error e)) ≡ 1
unfolding send_proxy_error
ends-error_acts id (attempt_failed body_too_large) = refl
ends-error_acts id (attempt_failed upstream_timeout) = refl
ends-error_acts id (attempt_failed other) = refl
ends-error_acts id no_target = refl

sends-append : (xs ys : List ReplyCall) → sends (xs ++ ys) ≡ sends xs + sends ys
sends-append [] ys = omega arith
sends-append (header_set name value ∷ xs) ys = sends-append xs ys
sends-append (sent status error retry_after ∷ xs) ys = suc-plus _ _ _ (sends-append xs ys)

sends-exposed_calls : (names : List Text) → sends (exposed_calls names) ≡ 0
sends-exposed_calls [] = refl
sends-exposed_calls (name ∷ names) = refl

sends-cors :
    (cors : CorsConfig) (origin : Text) → sends (apply_cors_response_headers cors origin) ≡ 0
unfolding apply_cors_response_headers
sends-cors cors origin = elim (Bool-cases cors.credentials) [
  | inl e ↦ rw e (sends-exposed_calls cors.exposed_headers)
  | inr e ↦ rw e (sends-exposed_calls cors.exposed_headers)
]

sends-preflight :
    (cors : CorsConfig) (origin : Text) → sends (apply_preflight_headers cors origin) ≡ 0
unfolding apply_preflight_headers
sends-preflight cors origin =
    sends-append (apply_cors_response_headers cors origin) _
    ∙ ap (λ n. n + 0) (sends-cors cors origin)

pub ends-preflight : (cors : CorsConfig) (origin : Text) → ends (preflight_acts cors origin) ≡ 1
ends-preflight cors origin =
    ends-after (map replied (apply_preflight_headers cors origin)) _
      (ends-replied (apply_preflight_headers cors origin) ∙ sends-preflight cors origin)

-- A request that goes on is not answered yet, and one that stops is answered.
abbrev pub EndsRight : Limited → Type 0
EndsRight (passes acts state) = ends acts ≡ 0
EndsRight (stops acts state) = ends acts ≡ 1

ends-limit :
    (id : Text) (calls : List ReplyCall) (allowed : Bool) (n : ℕ)
    → sends calls ≡ n
    → ends (map replied calls ++ limit_decided id allowed ∷ []) ≡ n
ends-limit id calls allowed n h = step (ends-append (map replied calls) _) (ends-replied calls)
  where
    step :
        ends (map replied calls ++ limit_decided id allowed ∷ []) ≡ ends (map replied calls) + 0
        → ends (map replied calls) ≡ sends calls
        → ends (map replied calls ++ limit_decided id allowed ∷ []) ≡ n
    step e f = omega arith

limited_by-EndsRight :
    (route : RouteConfig) (state : RuntimeState) (o : Option (Enforced × MemoryStore))
    → ((e : Enforced) (store : MemoryStore)
        → o ≡ some (e, store)
        → sends e.calls ≡ (if e.passes then 0 else 1))
    → EndsRight (limited_by route state o)
limited_by-EndsRight route state none h = refl
limited_by-EndsRight route state (some (e, store)) h = elim (Bool-cases e.passes) [
  | inl p ↦ rw p (ends-limit route.id e.calls true 0 (rw p at (h e store refl)))
  | inr p ↦ rw p (ends-limit route.id e.calls false 1 (rw p at (h e store refl)))
]

pub limit_request-EndsRight :
    (now : ℕ) (route : RouteConfig) (state : RuntimeState) (ip : Text) (outcome : AuthOutcome)
    → EndsRight (limit_request now route state ip outcome)
unfolding limit_request
limit_request-EndsRight now route state ip outcome = elim (Option-cases route.rate_limit) [
  | inl e ↦ rw (e, limit_request) refl
  | inr (limit, e) ↦ elim (Option-cases (lookup route.id state.rate_limit_stores)) [
    | inl l ↦ rw (e, l, limit_request) refl
    | inr (store, l) ↦
        rw (e, l, limit_request)
          (limited_by-EndsRight route state _
            (λ out store' h. enforce_rate_limit-answers _ store store' route ip _ _ out h))
  ]
]

pub ends-hit_acts : (id : Text) (cached : CachedResponse) → ends (hit_acts id cached) ≡ 1
ends-hit_acts id cached =
    ends-after (headers_copied cached.headers) _ (ends-headers_copied cached.headers)

-- Where the answer is a reply of the gateway's own, it is sent once.
abbrev pub SendsOnce : WebSocketAnswer → Type 0
SendsOnce (answered_with calls) = sends calls ≡ 1
SendsOnce (passed_back headers status body) = Unit
SendsOnce destroyed = Unit
SendsOnce (bridged protocol) = Unit
SendsOnce (raised error) = Unit

pub ends-websocket_acts :
    (id : Text) (answer : WebSocketAnswer) → SendsOnce answer → ends (websocket_acts id answer) ≡ 1
unfolding websocket_acts
ends-websocket_acts id (answered_with calls) h = ends-replied calls ∙ h
ends-websocket_acts id (passed_back headers status body) h =
    ends-after (texts_copied headers) _ (ends-texts_copied headers)
ends-websocket_acts id destroyed h = refl
ends-websocket_acts id (bridged protocol) h = refl
ends-websocket_acts id (raised error) h = ends-error_acts id error

on_connected-SendsOnce :
    (outcome : Connected) (target : Text) (b : Balancer) (now : ℕ)
    → SendsOnce (on_connected outcome target b now).0
unfolding on_connected
on_connected-SendsOnce (connected protocol) target b now = tt
on_connected-SendsOnce (rejected status headers body) target b now = tt
on_connected-SendsOnce client_aborted target b now = tt
on_connected-SendsOnce (failed_with error) target b now = tt

pub proxy_websocket-SendsOnce :
    (world : WebSocketWorld) (connections : List TrackedConnection) (route : RouteConfig)
    (cfg : WebSocketConfig) (b : Balancer) (path : Text) (headers : IncomingHeaders)
    (ip request_id : Text)
    → SendsOnce (proxy_websocket world connections route cfg b path headers ip request_id).answer
unfolding proxy_websocket
proxy_websocket-SendsOnce world connections route cfg b path headers ip request_id =
    elim (Bool-cases (cfg.max_connections ≤? count_for connections route.id)) [
      | inl e ↦ rw (e, proxy_websocket) refl
      | inr e ↦ elim (Option-cases (pick_target b world.picked_at).0) [
        | inl n ↦ rw (e, n, proxy_websocket) tt
        | inr (target, n) ↦ rw (e, n, proxy_websocket) (on_connected-SendsOnce _ target _ _)
      ]
    ]

pub ends-answer_outcome :
    (world : World) (route : RouteConfig) (cached : Option Cached) (state : RuntimeState)
    (outcome : Outcome)
    → ends (answer_outcome world route cached state outcome).0 ≡ 1
unfolding answer_outcome
ends-answer_outcome world route cached state (failed e) =
    ends-error_acts route.id (attempt_failed e)
ends-answer_outcome world route cached state no_healthy_target = ends-error_acts route.id no_target
ends-answer_outcome world route none state (responded r) =
    ends-after (headers_copied r.headers) _ (ends-headers_copied r.headers)
ends-answer_outcome world route (some c) state (responded r) =
    ends-after (headers_copied r.headers) _ (ends-headers_copied r.headers)
