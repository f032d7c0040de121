-- ===== src/Gateway/Handler/Replay.antt =====
-- What the cache answers to a request after another one.
use apigateaway.Common.{
  ◌≡◌, refl, ap, sym, subst, ◌∙◌, ℕ, ◌+◌, ◌*◌, ◌<◌, ◌≤?◌, true, Option, none, some, [], Text,
  text_eq_refl, lit, length, lookup, lookup-insert_self, arith,
}
use apigateaway.Config.{RouteConfig}
use apigateaway.Balancer.{Balancer}
use apigateaway.Proxy.Retry.{ForwardResult, responded}
use apigateaway.Cache.Store.{CachedResponse, Entries, get, set}
use apigateaway.Cache.Store.Laws.{seen, seen-set}
use apigateaway.Cache.Key.{is_cached, build_cache_key, strip_uncacheable_headers}
use apigateaway.Cache.Policy.{CacheDecision, decide_cacheability}
use apigateaway.Gateway.Runtime.{RuntimeState}
use apigateaway.Gateway.Exchange.{Request, World}
use apigateaway.Gateway.Handler.{
  Cached, hit_acts, ttl_of_route, cache_control_of, store_response, cached_for, answer_outcome,
  forwarded_for, forward, serve,
}

-- The decision on a response of a route, and what is stored of it.
abbrev pub decision_on : RouteConfig → ForwardResult → CacheDecision
decision_on route r =
    decide_cacheability r.status_code (cache_control_of r.headers) (ttl_of_route route)

abbrev pub stored_of : ForwardResult → CachedResponse
stored_of r = record {
  status_code = r.status_code;
  headers = strip_uncacheable_headers r.headers;
  body = r.body;
}

-- The key of a request.
abbrev pub key_for : World → RouteConfig → Request → Option Text → Option Text → Text
key_for world route request tenant_id host =
    build_cache_key world.sha256 world.encode_uri_component route request.method request.url
      request.headers tenant_id host

store_response-set :
    (route : RouteConfig) (max_body_bytes : ℕ) (entries : Entries) (key : Text) (r : ForwardResult)
    (now : ℕ)
    → (decision_on route r).cacheable ≡ true
    → (length r.body ≤? max_body_bytes) ≡ true
    → store_response route max_body_bytes entries key r now
      ≡ set entries key (stored_of r) (decision_on route r).ttl_sec now
unfolding store_response
store_response-set route max_body_bytes entries key r now c l = rw (c, l, store_response) refl

module _ (world : World) where
  -- A miss that the upstream answers leaves the response in the route's cache.
  serve-stores :
      (state : RuntimeState) (route : RouteConfig) (request : Request) (mark : Option Text)
      (c : Cached) (b : Balancer) (r : ForwardResult)
      → seen c.entries c.key world.read_at ≡ none
      → lookup route.id state.balancers ≡ some b
      → (forwarded_for world route request b).outcome ≡ responded r
      → lookup route.id (serve world state route request mark (some c)).state.cache_stores
        ≡ some (
            store_response route state.config.server.max_body_bytes
              (get c.entries c.key world.read_at).1
              c.key
              r
              world.stored_at)
  unfolding serve forward answer_outcome
  serve-stores state route request mark c b r miss found answered =
      rw (serve, miss, forward, found, answer_outcome, answered) (lookup-insert_self route.id _ _)

  -- What the cache holds is the answer, and no upstream is asked.
  serve-hit :
      (state : RuntimeState) (route : RouteConfig) (request : Request) (mark : Option Text)
      (c : Cached) (response : CachedResponse)
      → seen c.entries c.key world.read_at ≡ some response
      → let h = serve world state route request mark (some c) in
        (h.acts ≡ hit_acts route.id response) × (h.asked ≡ [])
  unfolding serve
  serve-hit state route request mark c response hit = rw (serve, hit) (refl, refl)

  cached_for-entries :
      (state : RuntimeState) (route : RouteConfig) (request : Request)
      (tenant_id host : Option Text) (entries : Entries)
      → is_cached route.cache ≡ true
      → request.method ≡ lit "GET"
      → lookup route.id state.cache_stores ≡ some entries
      → cached_for world state route request tenant_id host
        ≡ some (record { entries = entries; key = key_for world route request tenant_id host })
  unfolding cached_for
  cached_for-entries state route request tenant_id host entries c m l =
      simp (cached_for, c, m, l) refl

-- A response that the cache may take, and that fits the limit of a body, is the answer to a later
-- request with the same key before its time is over: status, headers but the cookies, and body. No
-- upstream is asked.
pub serve-replay :
    (world later : World) (state : RuntimeState) (route : RouteConfig) (request again : Request)
    (mark mark' tenant_id host : Option Text) (c : Cached) (b : Balancer) (r : ForwardResult)
    → is_cached route.cache ≡ true
    → again.method ≡ lit "GET"
    → key_for later route again tenant_id host ≡ c.key
    → seen c.entries c.key world.read_at ≡ none
    → lookup route.id state.balancers ≡ some b
    → (forwarded_for world route request b).outcome ≡ responded r
    → (decision_on route r).cacheable ≡ true
    → (length r.body ≤? state.config.server.max_body_bytes) ≡ true
    → later.read_at < world.stored_at + (decision_on route r).ttl_sec * 1000
    → let state' = (serve world state route request mark (some c)).state in
      let cached = cached_for later state' route again tenant_id host in
      let h = serve later state' route again mark' cached in
      (h.acts ≡ hit_acts route.id (stored_of r)) × (h.asked ≡ [])
serve-replay world later state route request again mark mark' tenant_id host c b r is_on is_get key
      miss found answered cacheable fits early =
    let state' = (serve world state route request mark (some c)).state in
    let entries = (get c.entries c.key world.read_at).1 in
    let ttl = (decision_on route r).ttl_sec in
    let entries' = set entries c.key (stored_of r) ttl world.stored_at in
    let stored : lookup route.id state'.cache_stores ≡ some entries' =
      serve-stores world state route request mark c b r miss found answered
      ∙ ap some (store_response-set route _ entries c.key r world.stored_at cacheable fits) in
    let cached' : Cached = record {
      entries = entries';
      key = key_for later route again tenant_id host;
    } in
    let hit : seen entries' (key_for later route again tenant_id host) later.read_at
        ≡ some (stored_of r) =
      ground (
        arith,
        seen-set entries c.key c.key (stored_of r) ttl world.stored_at later.read_at,
        key,
        text_eq_refl c.key,
        early,
      ) in
    subst
      (λ k.
        ((serve later state' route again mark' k).acts ≡ hit_acts route.id (stored_of r))
        × ((serve later state' route again mark' k).asked ≡ []))
      (sym
        (cached_for-entries later state' route again tenant_id host entries' is_on is_get stored))
      (serve-hit later state' route again mark' cached' (stored_of r) hit)
