-- ===== src/Gateway/Checks.antt =====
-- packages/gateway/src/server.ts: the steps of the handler of `app.all('/*')` before a request is
-- answered or forwarded.
use apigateaway.Common.{
  ℕ, Bool, true, false, not, ◌&&◌, Option, none, some, List, [], ◌∷◌, ◌++◌, map, if◌then◌else◌,
  Text, lit, text_eq, includes, lookup, insert,
}
use apigateaway.Config.{RouteConfig, CorsConfig, WebSocketConfig, RedisConfig}
use apigateaway.Http.{ReplyCall}
use apigateaway.Http.Cors.{is_origin_allowed}
use apigateaway.Auth.{AuthAnswer, AuthOutcome, let_in, unauthorized, misconfigured, thrown}
use apigateaway.RateLimit.Types.{Policy, RateLimitResult}
use apigateaway.RateLimit.Store.{MemoryStore, store_consume}
use apigateaway.RateLimit.Enforce.{Enforced, enforce_rate_limit}
use apigateaway.Routing.{match_route_by_path}
use apigateaway.Proxy.Headers.{HeaderValue, one, many, IncomingHeaders, Headers, header}
use apigateaway.Proxy.Errors.{send_proxy_error}
use apigateaway.WebSocket.Url.{access_token_param, extract_query_token, strip_query_param}
use apigateaway.WebSocket.Handshake.{handshake_problem}
use apigateaway.WebSocket.Connect.{
  WebSocketAnswer, answered_with, passed_back, destroyed, bridged, raised, text_only, is_not_empty,
}
use apigateaway.Gateway.Runtime.{RuntimeState}
use apigateaway.Gateway.Exchange.{
  Request, Act, replied, header_copied, status_set, body_sent, limit_decided, upstream_error,
  socket_destroyed, socket_bridged, escaped, refusing,
}

abbrev pub is_text : Option HeaderValue → Bool
is_text none = false
is_text (some (one value)) = true
is_text (some (many values)) = false

-- The route that answers a preflight, with its CORS and the origin.
abbrev pub allowing : Text → RouteConfig → Option (RouteConfig × CorsConfig × Text)
allowing origin route = elim route.cors [
  | none ↦ none
  | some cors ↦
      if cors.enabled && is_origin_allowed cors origin then some (route, cors, origin) else none
]

unfoldable pub preflight_of :
    List RouteConfig → Request → Text → Option Text → Option (RouteConfig × CorsConfig × Text)
preflight_of routes request path host = elim (text_only (header (lit "origin") request.headers)) [
  | none ↦ none
  | some origin ↦
      if text_eq request.method (lit "OPTIONS")
        && is_text (header (lit "access-control-request-method") request.headers)
      then elim (match_route_by_path routes path host) [
        | none ↦ none
        | some route ↦ allowing origin route
      ]
      else none
]

abbrev pub origin_refused : Option (List Text) → Option Text → Bool
origin_refused none origin = false
origin_refused (some origins) none = false
origin_refused (some origins) (some origin) =
    not (includes origins (lit "*")) && not (includes origins origin)

abbrev pub websocket_of : Option WebSocketConfig → Option WebSocketConfig
websocket_of none = none
websocket_of (some ws) = if ws.enabled then some ws else none

-- The refusal of an upgrade that the route does not take.
unfoldable pub upgrade_refusal : RouteConfig → Request → Option (ℕ × Text)
upgrade_refusal route request = elim (websocket_of route.websocket) [
  | none ↦ some (400, lit "websocket_not_enabled")
  | some ws ↦ elim (handshake_problem request.method request.headers) [
    | some problem ↦ some (400, lit "bad_handshake")
    | none ↦
        if origin_refused ws.origins (text_only (header (lit "origin") request.headers))
        then some (403, lit "origin_not_allowed")
        else none
  ]
]

-- Node keeps one Authorization header, which is a text.
abbrev pub authorization_of : IncomingHeaders → Option Text
authorization_of headers = text_only (header (lit "authorization") headers)

abbrev pub is_given : Option Text → Bool
is_given none = false
is_given (some value) = is_not_empty value

-- The headers with the token of the query as Authorization.
unfoldable pub with_query_token : (Text → Text) → Text → IncomingHeaders → IncomingHeaders
with_query_token decode url headers =
    if is_given (authorization_of headers)
    then headers
    else elim (extract_query_token decode url access_token_param) [
      | none ↦ headers
      | some token ↦ insert (lit "authorization") (some (one (lit "Bearer " ++ token))) headers
    ]

abbrev pub takes_query_token : RouteConfig → Bool
takes_query_token route = elim route.websocket [ none ↦ false | some ws ↦ ws.query_token ]

-- The request after the token is taken out of its URL, which only an upgrade has done.
unfoldable pub prepared : (Text → Text) → RouteConfig → Request → Request
prepared decode route request =
    if request.upgrade && takes_query_token route
    then record request {
      headers = with_query_token decode request.url request.headers;
      url = strip_query_param decode request.url access_token_param;
    }
    else request

-- The reply's calls on a refusal, which authenticateRequest makes.
abbrev pub auth_refusal : AuthAnswer → List Act
auth_refusal (let_in outcome) = []
auth_refusal unauthorized = refusing 401 (lit "unauthorized")
auth_refusal misconfigured = refusing 500 (lit "server_misconfigured")
auth_refusal thrown = escaped ∷ []

-- `state.config.redis?.failOpen ?? true`
abbrev pub fail_open_of : Option RedisConfig → Bool
fail_open_of none = true
fail_open_of (some redis) = redis.fail_open

-- A store in memory does not fail.
abbrev pub consume_at : ℕ → MemoryStore → Text → Policy → Option RateLimitResult × MemoryStore
consume_at now store key policy =
    let (result, store') = store_consume store key policy now 1 in (some result, store')

-- How the handler goes on after the limits: with the calls on the reply and the state, or not.
pub data Limited : Type 0 where
  passes : List Act → RuntimeState → Limited
  stops : List Act → RuntimeState → Limited

abbrev pub limited_by : RouteConfig → RuntimeState → Option (Enforced × MemoryStore) → Limited
limited_by route state none = stops (escaped ∷ []) state
limited_by route state (some (e, store)) =
    let state' = record state {
      rate_limit_stores = insert route.id store state.rate_limit_stores;
    } in
    let acts = map replied e.calls ++ limit_decided route.id e.passes ∷ [] in
    if e.passes then passes acts state' else stops acts state'

unfoldable pub limit_request : ℕ → RouteConfig → RuntimeState → Text → AuthOutcome → Limited
limit_request now route state ip outcome = elim route.rate_limit [
  | none ↦ passes [] state
  | some limit ↦ elim (lookup route.id state.rate_limit_stores) [
    | none ↦ passes [] state
    | some store ↦ limited_by route state (
        enforce_rate_limit (consume_at now) store route ip
          (record { tenant_id = outcome.tenant_id; tenant_plan = outcome.plan })
          (fail_open_of state.config.redis))
  ]
]

abbrev pub error_acts : Text → List ReplyCall × Option Text → List Act
error_acts route_id (calls, none) = map replied calls
error_acts route_id (calls, some reason) = upstream_error route_id reason ∷ map replied calls

abbrev pub headers_copied : Headers → List Act
headers_copied [] = []
headers_copied ((name, value) ∷ rest) = header_copied name value ∷ headers_copied rest

abbrev pub texts_copied : List (Text × Text) → List Act
texts_copied [] = []
texts_copied ((name, value) ∷ rest) = header_copied name (one value) ∷ texts_copied rest

unfoldable pub websocket_acts : Text → WebSocketAnswer → List Act
websocket_acts route_id (answered_with calls) = map replied calls
websocket_acts route_id (passed_back headers status body) =
    texts_copied headers ++ status_set status ∷ body_sent body ∷ []
websocket_acts route_id destroyed = socket_destroyed ∷ []
websocket_acts route_id (bridged protocol) = socket_bridged protocol ∷ []
websocket_acts route_id (raised error) = error_acts route_id (send_proxy_error error)
