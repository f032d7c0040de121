-- ===== src/Tests/Pipeline.antt =====
-- The request pipeline at concrete inputs: a gateway of one route with API keys and a cache.
use apigateaway.Common.{ℕ, ◌≡◌, refl, true, false, none, some, [], ◌∷◌, lit, ◌<?◌, ◌⊎◌, arith}
use apigateaway.Config.{GatewayConfig, RouteConfig, CorsConfig, api_key}
use apigateaway.Auth.{
  AuthWorld, AuthOutcome, ApiKeyRecord, authenticate_request, lookup_api_key, verify_api_key_hash,
}
use apigateaway.Http.{extract_bearer_token}
use apigateaway.Http.Cors.{is_origin_allowed, apply_cors_response_headers}
use apigateaway.Http.Limits.{declared_length, exceeds, enforce_header_limit, enforce_body_limit}
use apigateaway.Routing.{
  match_route, match_route_by_path, normalize_host, matches_method, matches_path, matches_host,
  split_url,
}
use apigateaway.Balancer.{
  admit, create_balancer, pick_target, pick_from, report_success, update_first,
}
use apigateaway.Proxy.Headers.{one}
use apigateaway.Proxy.Retry.{ForwardResult, answered, forward_with_retry, retry_loop}
use apigateaway.Cache.Policy.{decide_cacheability, directives_of, max_age_from}
use apigateaway.Cache.Store.{get}
use apigateaway.Cache.Key.{create_cache_stores, build_cache_key, cache_key_prefix, variant_of}
use apigateaway.WebSocket.Connect.{client_gone}
use apigateaway.Gateway.Runtime.{RuntimeState, build_runtime_state, create_balancers}
use apigateaway.Gateway.Exchange.{Request, World}
use apigateaway.Gateway.Checks.{prepared, preflight_of, limit_request}
use apigateaway.Gateway.Handler.{
  Cached, handle, route_request, handle_on, admit_request, serve, cached_for, forward,
  answer_outcome, hit_acts,
}
use apigateaway.Gateway.Handler.Ends.{ends}
use apigateaway.Gateway.Handler.Admission.{
  reaches, route_for, IsLetIn, IsWithinLimits, IsAdmitted, handle-reaches, handle-state,
}
use apigateaway.Gateway.Handler.Replay.{stored_of, key_for, serve-replay}
use apigateaway.Gateway.Handler.Marks.{IsVouched}
use apigateaway.Gateway.Hooks.{receive, on_send}
use apigateaway.Gateway.Hooks.Laws.{receive-ends, usage_of-receive, on_send-Allows, Allows}

abbrev stored : ApiKeyRecord
stored = record {
  id = lit "1";
  tenant_id = lit "t1";
  scopes = [];
  key_hash = lit "k1";
  plan = record { limit = 10; window_sec = 60; burst = 10 };
}

-- Digests that are the texts themselves, and a database of one key.
abbrev pub auth_world : AuthWorld
auth_world = record {
  hash_api_key = λ raw. raw;
  bytes_of_hex = λ digits. digits;
  jwt_verify = λ url token issuer audience. none;
  to_json = λ r. lit "{}";
  of_json = λ text. none;
  redis_get = none;
  db_find = some (λ hash. some (some stored));
}

abbrev cors : CorsConfig
cors = record {
  enabled = true;
  origins = lit "https://a" ∷ [];
  methods = lit "GET" ∷ [];
  allowed_headers = [];
  exposed_headers = [];
  credentials = false;
  max_age_sec = 600;
}

abbrev pub route : RouteConfig
route = record {
  id = lit "r";
  match_on = record { path = lit "/*"; methods = none; host = none };
  strip_prefix = none;
  upstream = record {
    targets = lit "http://u" ∷ [];
    health_check = none;
    timeout_ms = 1000;
    body_timeout_ms = none;
  };
  auth = api_key;
  rate_limit = none;
  cache = some (record { enabled = true; ttl_sec = 60; vary_by = [] });
  cors = some cors;
  websocket = none;
  transform = none;
  retry = none;
  circuit_breaker = none;
}

abbrev config : GatewayConfig
config = record {
  server = record {
    port = 8080;
    trust_proxy_hops = 0;
    max_body_bytes = 100;
    max_header_count = 10;
    request_timeout_ms = 1000;
    watch = false;
  };
  redis = none;
  db = some (record { url = lit "pg" });
  admin = none;
  routes = route ∷ [];
}

abbrev state : RuntimeState
state = build_runtime_state config

abbrev response : ForwardResult
response = record { status_code = 200; headers = []; body = 1 ∷ 2 ∷ [] }

abbrev world_at : ℕ → World
world_at now = record {
  auth = auth_world;
  decode = λ text. text;
  sha256 = λ text. text;
  encode_uri_component = λ text. text;
  upstream = λ request. record {
    forward = λ attempt target. answered response;
    picked_at = λ attempt. now;
    known_at = λ attempt. now;
    random = λ attempt. 0;
  };
  websocket = record { handshake = λ request. client_gone; picked_at = now; known_at = now };
  connections = [];
  limited_at = now;
  read_at = now;
  stored_at = now;
}

abbrev request : Request
request = record {
  method = lit "GET";
  url = lit "/x?a=1";
  headers =
      (lit "authorization", some (one (lit "Bearer k1")))
      ∷ (lit "origin", some (one (lit "https://a")))
      ∷ [];
  ip = lit "10.0.0.1";
  hostname = none;
  request_id = lit "1";
  upgrade = false;
  buffering = none;
}

receive-ends_example :
    let h = receive (world_at 5) state request in
    (ends h.acts ≡ 1)
    × (((10 <? 2) ≡ true) ⊎ (exceeds (declared_length request.headers) 100 ≡ true)
        → (reaches h ≡ false) × (h.state ≡ state))
unfolding build_runtime_state
receive-ends_example = receive-ends (world_at 5) state request

handle-state_example :
    ((handle (world_at 5) state request).state ≡ state) ⊎ IsAdmitted (world_at 5) state request
handle-state_example = handle-state (world_at 5) state request

handle-reaches_example :
    (r : RouteConfig) × (outcome : AuthOutcome) × (route_for state request ≡ some r)
    × IsLetIn (world_at 5) r request outcome
    × IsWithinLimits (world_at 5) state r (prepared (λ text. text) r request) outcome
unfolding handle route_request handle_on admit_request serve cached_for forward answer_outcome
    build_runtime_state create_balancers create_cache_stores create_balancer preflight_of
    match_route match_route_by_path normalize_host matches_method matches_path matches_host
    split_url authenticate_request extract_bearer_token lookup_api_key verify_api_key_hash
    limit_request prepared get build_cache_key cache_key_prefix variant_of forward_with_retry
    retry_loop pick_target pick_from report_success update_first admit
handle-reaches_example = handle-reaches (world_at 5) state request refl

on_send-Allows_example : Allows config.routes request (some (lit "r"))
unfolding on_send is_origin_allowed apply_cors_response_headers
on_send-Allows_example = on_send-Allows config.routes request (some (lit "r")) refl

usage_of-receive_example : IsVouched (world_at 5) state request (some (lit "r")) (lit "t1")
unfolding receive enforce_header_limit enforce_body_limit handle route_request handle_on
    admit_request serve cached_for forward answer_outcome build_runtime_state create_balancers
    create_cache_stores create_balancer preflight_of match_route match_route_by_path normalize_host
    matches_method matches_path matches_host split_url authenticate_request extract_bearer_token
    lookup_api_key verify_api_key_hash limit_request prepared get build_cache_key cache_key_prefix
    variant_of forward_with_retry retry_loop pick_target pick_from report_success update_first admit
usage_of-receive_example =
    usage_of-receive (world_at 5) state request 200 7
      (record { tenant_id = lit "t1"; route_id = lit "r"; status_code = 200; latency_ms = 7 }) refl

abbrev cached : Cached
cached = record { entries = []; key = key_for (world_at 5) route request none none }

serve-replay_example :
    let state' = (serve (world_at 5) state route request none (some cached)).state in
    let again = cached_for (world_at 9) state' route request none none in
    let h = serve (world_at 9) state' route request none again in
    (h.acts ≡ hit_acts (lit "r") (stored_of response)) × (h.asked ≡ [])
unfolding build_runtime_state create_balancers create_balancer get forward_with_retry retry_loop
    pick_target pick_from report_success update_first admit decide_cacheability directives_of
    max_age_from
serve-replay_example =
    serve-replay (world_at 5) (world_at 9) state route request request none none none none cached
      (create_balancer (lit "http://u" ∷ []) none) response refl refl refl refl refl refl refl refl
      (omega arith)
