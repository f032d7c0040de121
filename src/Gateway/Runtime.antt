-- ===== src/Gateway/Runtime.antt =====
-- packages/gateway/src/server.ts: the state that a reload replaces. Without Redis the stores are
-- those in memory, which is the case modelled.
pub mod Reload
pub mod Served
use apigateaway.Common.{
  ℕ, Bool, true, false, not, ◌&&◌, ◌||◌, Option, none, some, List, [], ◌∷◌, ◌++◌, map,
  if◌then◌else◌, ◌==◌, ◌<?◌, Text, text_eq, Dict, lookup, insert, keep, any, is_some, is_cons,
}
use apigateaway.Config.{
  GatewayConfig, ServerConfig, RedisConfig, DbConfig, AdminConfig, RouteConfig, AuthConfig, no_auth,
  api_key, jwt,
}
use apigateaway.Balancer.{Balancer, create_balancer, TargetSnapshot, get_target_states}
use apigateaway.RateLimit.Store.{MemoryStore}
use apigateaway.RateLimit.Enforce.{create_rate_limit_stores}
use apigateaway.Cache.Store.{Entries, delete_by_prefix}
use apigateaway.Cache.Key.{create_cache_stores, cache_key_prefix, is_cached}

abbrev pub uses_api_key : RouteConfig → Bool
uses_api_key route = elim route.auth [ no_auth ↦ false | api_key ↦ true | jwt options ↦ false ]

unfoldable pub api_key_routes_needing_db : GatewayConfig → List Text
api_key_routes_needing_db config = map (λ (r : RouteConfig). r.id) (keep uses_api_key config.routes)

-- `missingDb.length > 0 && !config.db`
abbrev pub lacks_db : GatewayConfig → Bool
lacks_db config = is_cons (api_key_routes_needing_db config) && not (is_some config.db)

-- `JSON.stringify(a) === JSON.stringify(b)`, on sections that the schema has parsed: their keys stand
-- in the schema's order, so that the texts agree where the fields do.
abbrev pub same_bool : Bool → Bool → Bool
same_bool true b = b
same_bool false b = not b

abbrev pub same_server : ServerConfig → ServerConfig → Bool
same_server a b =
    (a.port == b.port)
    && (a.trust_proxy_hops == b.trust_proxy_hops)
    && (a.max_body_bytes == b.max_body_bytes)
    && (a.max_header_count == b.max_header_count)
    && (a.request_timeout_ms == b.request_timeout_ms)
    && same_bool a.watch b.watch

abbrev pub same_optional : {A : Type 0} → (A → A → Bool) → Option A → Option A → Bool
same_optional same none none = true
same_optional same none (some b) = false
same_optional same (some a) none = false
same_optional same (some a) (some b) = same a b

abbrev pub same_redis : RedisConfig → RedisConfig → Bool
same_redis a b = text_eq a.url b.url && same_bool a.fail_open b.fail_open

abbrev pub same_db : DbConfig → DbConfig → Bool
same_db a b = text_eq a.url b.url

abbrev pub same_admin : AdminConfig → AdminConfig → Bool
same_admin a b = text_eq a.token b.token

-- False is a throw.
unfoldable pub assert_hot_reloadable : GatewayConfig → GatewayConfig → Bool
assert_hot_reloadable old new =
    same_server old.server new.server
    && same_optional same_redis old.redis new.redis
    && same_optional same_db old.db new.db
    && same_optional same_admin old.admin new.admin
    && not (lacks_db new)

pub record RuntimeState : Type 0 where
  pub config : GatewayConfig
  pub rate_limit_stores : Dict MemoryStore
  pub cache_stores : Dict Entries
  pub balancers : Dict Balancer

abbrev pub balancer_of : RouteConfig → Balancer
balancer_of route = create_balancer route.upstream.targets route.circuit_breaker

-- `new Map(...)`: a later route of the same id replaces an earlier one.
unfoldable pub create_balancers : List RouteConfig → Dict Balancer → Dict Balancer
create_balancers [] balancers = balancers
create_balancers (route ∷ routes) balancers =
    create_balancers routes (insert route.id (balancer_of route) balancers)

unfoldable pub build_runtime_state : GatewayConfig → RuntimeState
build_runtime_state config = record {
  config = config;
  rate_limit_stores = create_rate_limit_stores config.routes [];
  cache_stores = create_cache_stores config.routes [];
  balancers = create_balancers config.routes [];
}

-- The state after the call, and whether the call gave an exception. The balancers closed are those
-- of the old state.
unfoldable pub reload : RuntimeState → GatewayConfig → RuntimeState × Bool
reload state config =
    if assert_hot_reloadable state.config config
    then (build_runtime_state config, false)
    else (state, true)

-- The boot: none is the exception of a route that needs a database.
unfoldable pub boot : GatewayConfig → Option RuntimeState
boot config = if lacks_db config then none else some (build_runtime_state config)

abbrev pub uses_redis : RouteConfig → Bool
uses_redis route = is_some route.rate_limit || is_cached route.cache

unfoldable pub needs_redis : GatewayConfig → Bool
needs_redis config =
    is_some config.redis
    && (any uses_redis config.routes || is_cons (api_key_routes_needing_db config))

unfoldable pub needs_db : GatewayConfig → Bool
needs_db config =
    is_some config.db && (is_cons (api_key_routes_needing_db config) || is_some config.admin)

-- `hop < trustProxyHops`, or no hop at all
unfoldable pub trust_proxy : GatewayConfig → ℕ → Bool
trust_proxy config hop =
    if 0 <? config.server.trust_proxy_hops then hop <? config.server.trust_proxy_hops else false

module _ (sha256 encode_uri_component : Text → Text) where
  -- The number of entries removed, none for a route without a cache.
  unfoldable pub purge_cache : RuntimeState → Text → Option Text → ℕ → Option ℕ × RuntimeState
  purge_cache state route_id path now = elim (lookup route_id state.cache_stores) [
    | none ↦ (none, state)
    | some store ↦
        let prefix = cache_key_prefix sha256 encode_uri_component route_id path in
        let (removed, store') = delete_by_prefix store prefix now in
        (some removed, record state { cache_stores = insert route_id store' state.cache_stores })
  ]

-- What `/metrics` sets before it answers: each target of each route, with its state.
abbrev pub gauges_of : Text → List TargetSnapshot → List (Text × TargetSnapshot)
gauges_of route_id targets = map (λ (t : TargetSnapshot). (route_id, t)) targets

unfoldable pub refresh_gauges : Dict Balancer → List (Text × TargetSnapshot)
refresh_gauges [] = []
refresh_gauges ((route_id, b) ∷ rest) =
    gauges_of route_id (get_target_states b) ++ refresh_gauges rest
