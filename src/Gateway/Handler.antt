-- ===== src/Gateway/Handler.antt =====
-- packages/gateway/src/server.ts: the handler of `app.all('/*')`.
pub mod Ends
pub mod Once
pub mod Admission
pub mod Replay
pub mod Marks
use apigateaway.Common.{
  ℕ, Bool, true, false, not, ◌&&◌, ◌||◌, Option, none, some, List, [], ◌∷◌, ◌++◌, map,
  if◌then◌else◌, ◌≤?◌, Text, lit, text_eq, includes, length, lookup, insert,
}
use apigateaway.Config.{RouteConfig, CorsConfig, WebSocketConfig, CacheConfig, RedisConfig}
use apigateaway.Http.{ReplyCall, header_set, sent, text_value}
use apigateaway.Http.Cors.{is_origin_allowed, apply_preflight_headers}
use apigateaway.Auth.{
  AuthWorld, AuthEffect, AuthAnswer, AuthOutcome, let_in, unauthorized, misconfigured, thrown,
  authenticate_request,
}
use apigateaway.RateLimit.Types.{Policy, RateLimitResult}
use apigateaway.RateLimit.Store.{MemoryStore, store_consume}
use apigateaway.RateLimit.Enforce.{RateLimitContext, Enforced, enforce_rate_limit}
use apigateaway.Routing.{split_url, normalize_host, match_route, match_route_by_path, rewrite_path}
use apigateaway.Proxy.Headers.{
  HeaderValue, one, many, IncomingHeaders, Headers, header, apply_request_transform,
  build_outgoing_headers,
}
use apigateaway.Proxy.Retry.{
  Environment, Forwarded, ForwardResult, ForwardError, Outcome, responded, failed,
  no_healthy_target, other, forward_with_retry,
}
use apigateaway.Proxy.Errors.{ProxyError, attempt_failed, no_target, send_proxy_error}
use apigateaway.Cache.Store.{CachedResponse, Entries, get, set}
use apigateaway.Cache.Key.{is_cached, build_cache_key, strip_uncacheable_headers}
use apigateaway.Cache.Policy.{CacheDecision, decide_cacheability}
use apigateaway.Balancer.{Balancer}
use apigateaway.WebSocket.Url.{access_token_param, extract_query_token, strip_query_param}
use apigateaway.WebSocket.Handshake.{is_websocket_handshake, handshake_problem}
use apigateaway.WebSocket.Registry.{TrackedConnection}
use apigateaway.WebSocket.Connect.{
  HandshakeRequest, WebSocketWorld, WebSocketAnswer, answered_with, passed_back, destroyed, bridged,
  raised, Proxied, proxy_websocket, text_only, is_not_empty,
}
use apigateaway.Gateway.Runtime.{RuntimeState}
use apigateaway.Gateway.Exchange.{
  Request, UpstreamRequest, World, Act, replied, header_copied, status_set, body_sent, auth_wrote,
  cache_hit, cache_miss, upstream_error, escaped, Handled, stopped, after, refusing,
}
use apigateaway.Gateway.Checks.{
  preflight_of, upgrade_refusal, prepared, authorization_of, auth_refusal, Limited, passes, stops,
  limit_request, error_acts, headers_copied, websocket_acts,
}

abbrev pub x_cache : Text → Act
x_cache value = replied (header_set (lit "X-Cache") (text_value value))

abbrev pub hit_acts : Text → CachedResponse → List Act
hit_acts route_id cached =
    cache_hit route_id
    ∷ x_cache (lit "HIT")
    ∷ status_set cached.status_code
    ∷ (headers_copied cached.headers ++ body_sent cached.body ∷ [])

abbrev pub response_acts : ForwardResult → List Act
response_acts upstream = status_set upstream.status_code ∷ headers_copied upstream.headers

-- `route.cache!.ttlSec`, on a route that is cached
abbrev pub ttl_of_route : RouteConfig → ℕ
ttl_of_route route = elim route.cache [ none ↦ 0 | some c ↦ c.ttl_sec ]

abbrev pub cache_control_of : Headers → Option HeaderValue
cache_control_of headers = lookup (lit "cache-control") headers

-- The entries after a response that the cache may take.
unfoldable pub store_response : RouteConfig → ℕ → Entries → Text → ForwardResult → ℕ → Entries
store_response route max_body_bytes entries key upstream now =
    let decision =
      decide_cacheability upstream.status_code (cache_control_of upstream.headers)
        (ttl_of_route route) in
    if decision.cacheable && length upstream.body ≤? max_body_bytes
    then set entries key
        (record {
          status_code = upstream.status_code;
          headers = strip_uncacheable_headers upstream.headers;
          body = upstream.body;
        })
        decision.ttl_sec now
    else entries

-- The cache of a route with the key of the request, where it has both.
pub record Cached : Type 0 where
  pub entries : Entries
  pub key : Text

abbrev pub with_entries : Text → Entries → RuntimeState → RuntimeState
with_entries route_id entries state = record state {
  cache_stores = insert route_id entries state.cache_stores;
}

abbrev pub with_balancer : Text → Balancer → RuntimeState → RuntimeState
with_balancer route_id b state = record state { balancers = insert route_id b state.balancers }

abbrev pub has_body : Text → Bool
has_body method = not (text_eq method (lit "GET")) && not (text_eq method (lit "HEAD"))

abbrev pub upstream_request : RouteConfig → Request → UpstreamRequest
upstream_request route request = record {
  method = request.method;
  path = rewrite_path request.url route.strip_prefix;
  headers =
      build_outgoing_headers (apply_request_transform route.transform request.headers) request.ip
        request.request_id;
  has_body = has_body request.method;
  timeout_ms = route.upstream.timeout_ms;
}

abbrev pub preflight_acts : CorsConfig → Text → List Act
preflight_acts cors origin =
    map replied (apply_preflight_headers cors origin) ++ status_set 204 ∷ body_sent [] ∷ []

-- `if (authOutcome.tenantId) request.apigateTenantId = …`
abbrev pub tenant_mark : Option Text → Option Text
tenant_mark none = none
tenant_mark (some tenant) = if is_not_empty tenant then some tenant else none

module _ (world : World) where
  -- The key, on a route that is cached and has its store.
  unfoldable pub cached_for :
      RuntimeState → RouteConfig → Request → Option Text → Option Text → Option Cached
  cached_for state route request tenant_id host =
      if is_cached route.cache && text_eq request.method (lit "GET")
      then elim (lookup route.id state.cache_stores) [
        | none ↦ none
        | some entries ↦ some (record {
          entries = entries;
          key =
              build_cache_key world.sha256 world.encode_uri_component route request.method
                request.url request.headers tenant_id host;
        })
      ]
      else none

  -- The answer to what was forwarded. Where a response is to be cached its body is read first; the body
  -- here is whole, so that this read does not fail.
  unfoldable pub answer_outcome :
      RouteConfig → Option Cached → RuntimeState → Outcome → List Act × RuntimeState
  answer_outcome route cached state (failed error) =
      (error_acts route.id (send_proxy_error (attempt_failed error)), state)
  answer_outcome route cached state no_healthy_target =
      (error_acts route.id (send_proxy_error no_target), state)
  answer_outcome route none state (responded r) = (response_acts r ++ body_sent r.body ∷ [], state)
  answer_outcome route (some c) state (responded r) = (
    response_acts r ++ cache_miss route.id ∷ x_cache (lit "MISS") ∷ body_sent r.body ∷ [],
    with_entries route.id
        (store_response route state.config.server.max_body_bytes c.entries c.key r world.stored_at)
        state,
  )

  abbrev pub of_forwarded :
      RouteConfig → Option Text → Option Cached → RuntimeState → Forwarded → Handled
  of_forwarded route tenant_id cached state f =
      let (acts, state') =
        answer_outcome route cached (with_balancer route.id f.balancer state) f.outcome in
      record {
        acts = acts;
        state = state';
        route_id = some route.id;
        tenant_id = tenant_id;
        asked = f.tried;
        handshakes = [];
      }

  abbrev pub forwarded_for : RouteConfig → Request → Balancer → Forwarded
  forwarded_for route request b =
      forward_with_retry (world.upstream (upstream_request route request)) route.retry
        request.method (if has_body request.method then request.buffering else none) b

  -- `balancers.get(route.id)!`: without one, the exception is caught as any other.
  unfoldable pub forward :
      RuntimeState → RouteConfig → Request → Option Text → Option Cached → Handled
  forward state route request tenant_id cached = elim (lookup route.id state.balancers) [
    | none ↦
        stopped (error_acts route.id (send_proxy_error (attempt_failed other))) state
          (some route.id) tenant_id
    | some b ↦ of_forwarded route tenant_id cached state (forwarded_for route request b)
  ]

  abbrev pub of_read :
      RuntimeState
      → RouteConfig
      → Request
      → Option Text
      → Cached
      → Option CachedResponse × Entries
      → Handled
  of_read state route request tenant_id c (some response, entries) =
      stopped (hit_acts route.id response) (with_entries route.id entries state) (some route.id)
        tenant_id
  of_read state route request tenant_id c (none, entries) =
      forward (with_entries route.id entries state) route request tenant_id
        (some (record c { entries = entries }))

  unfoldable pub serve :
      RuntimeState → RouteConfig → Request → Option Text → Option Cached → Handled
  serve state route request tenant_id none = forward state route request tenant_id none
  serve state route request tenant_id (some c) =
      of_read state route request tenant_id c (get c.entries c.key world.read_at)

  abbrev pub of_proxied : RouteConfig → Option Text → RuntimeState → Proxied → Handled
  of_proxied route tenant_id state p = record {
    acts = map (upstream_error route.id) p.upstream_errors ++ websocket_acts route.id p.answer;
    state = with_balancer route.id p.balancer state;
    route_id = some route.id;
    tenant_id = tenant_id;
    asked = [];
    handshakes = p.tried;
  }

  abbrev pub proxied_for : RouteConfig → Request → WebSocketConfig → Balancer → Proxied
  proxied_for route request cfg b =
      proxy_websocket world.websocket world.connections route cfg b
        (rewrite_path request.url route.strip_prefix)
        (apply_request_transform route.transform request.headers) request.ip request.request_id

  -- An upgrade whose route has no `websocket` was refused before.
  unfoldable pub serve_websocket : RuntimeState → RouteConfig → Request → Option Text → Handled
  serve_websocket state route request tenant_id = elim (lookup route.id state.balancers) [
    | none ↦
        stopped (error_acts route.id (send_proxy_error (attempt_failed other))) state
          (some route.id) tenant_id
    | some b ↦ elim route.websocket [
      | none ↦ stopped (escaped ∷ []) state (some route.id) tenant_id
      | some cfg ↦ of_proxied route tenant_id state (proxied_for route request cfg b)
    ]
  ]

  abbrev pub of_limited : RouteConfig → Request → Option Text → Option Text → Limited → Handled
  of_limited route request host tenant_id (stops acts state) =
      stopped acts state (some route.id) (tenant_mark tenant_id)
  of_limited route request host tenant_id (passes acts state) = after acts (
      if request.upgrade
      then serve_websocket state route request (tenant_mark tenant_id)
      else serve state route request (tenant_mark tenant_id)
          (cached_for state route request tenant_id host))

  abbrev pub of_answer : RuntimeState → RouteConfig → Request → Option Text → AuthAnswer → Handled
  of_answer state route request host (let_in outcome) =
      of_limited route request host outcome.tenant_id
        (limit_request world.limited_at route state request.ip outcome)
  of_answer state route request host unauthorized =
      stopped (auth_refusal unauthorized) state (some route.id) none
  of_answer state route request host misconfigured =
      stopped (auth_refusal misconfigured) state (some route.id) none
  of_answer state route request host thrown =
      stopped (auth_refusal thrown) state (some route.id) none

  abbrev pub authenticated : RouteConfig → Request → AuthAnswer × List AuthEffect
  authenticated route request =
      authenticate_request world.auth route.auth (authorization_of request.headers)

  abbrev pub of_authenticated :
      RuntimeState → RouteConfig → Request → Option Text → AuthAnswer × List AuthEffect → Handled
  of_authenticated state route request host (answer, effects) =
      after (map auth_wrote effects) (of_answer state route request host answer)

  unfoldable pub admit_request : RuntimeState → RouteConfig → Request → Option Text → Handled
  admit_request state route request host =
      of_authenticated state route request host (authenticated route request)

  -- On the route, with the refusals of an upgrade.
  unfoldable pub handle_on : RuntimeState → RouteConfig → Request → Option Text → Handled
  handle_on state route request host =
      let going_on = admit_request state route (prepared world.decode route request) host in
      if request.upgrade
      then elim (upgrade_refusal route request) [
        | some (status, error) ↦ stopped (refusing status error) state (some route.id) none
        | none ↦ going_on
      ]
      else going_on

  unfoldable pub route_request : RuntimeState → Request → Text → Option Text → Handled
  route_request state request path host =
      elim (preflight_of state.config.routes request path host) [
        | some (route, cors, origin) ↦
            stopped (preflight_acts cors origin) state (some route.id) none
        | none ↦ elim (match_route state.config.routes request.method path host) [
          | none ↦ stopped (refusing 404 (lit "not_found")) state none none
          | some route ↦ handle_on state route request host
        ]
      ]

  unfoldable pub handle : RuntimeState → Request → Handled
  handle state request =
      if request.upgrade && not (is_websocket_handshake request.headers)
      then stopped (refusing 400 (lit "upgrade_not_supported")) state none none
      else route_request state request (split_url request.url).0 (normalize_host request.hostname)
