-- ===== src/Cache/Key.antt =====
-- packages/gateway/src/cache/index.ts: the keys of cached responses, and the headers not stored.
-- The hash of `node:crypto` and `encodeURIComponent` are parameters.
pub mod Laws
use apigateaway.Common.{
  ℕ, Bool, true, false, Option, none, some, List, [], ◌∷◌, ◌++◌, map, if◌then◌else◌, Text, lit,
  text_eq, to_lower, join, or_else, insert, Dict,
}
use apigateaway.Config.{RouteConfig, CacheConfig}
use apigateaway.Proxy.Headers.{HeaderValue, one, many, IncomingHeaders, Headers, header}
use apigateaway.Cache.Store.{Entries}
use apigateaway.Routing.{split_url}

-- `route.cache?.enabled`
abbrev pub is_cached : Option CacheConfig → Bool
is_cached none = false
is_cached (some c) = c.enabled

-- `createCacheStores` without Redis: an empty store for each route that is cached.
unfoldable pub create_cache_stores : List RouteConfig → Dict Entries → Dict Entries
create_cache_stores [] stores = stores
create_cache_stores (route ∷ routes) stores =
    create_cache_stores routes (if is_cached route.cache then insert route.id [] stores else stores)

-- `route.cache?.varyBy ?? []`
abbrev pub vary_by_of : Option CacheConfig → List Text
vary_by_of none = []
vary_by_of (some c) = c.vary_by

-- `Array.isArray(value) ? value.join(',') : (value ?? '')`
abbrev pub vary_value : Option HeaderValue → Text
vary_value none = []
vary_value (some (one value)) = value
vary_value (some (many values)) = join (lit ",") values

abbrev pub vary_part : IncomingHeaders → Text → Text
vary_part headers name = to_lower name ++ (lit "=" ++ vary_value (header (to_lower name) headers))

-- ``tenantId ? `tenant:${tenantId}` : ''``
abbrev pub tenant_part : Option Text → Text
tenant_part none = []
tenant_part (some []) = []
tenant_part (some (c ∷ s)) = lit "tenant:" ++ (c ∷ s)

-- ``route.match.host ? `host:${host ?? ''}` : ''``
abbrev pub host_part : Option Text → Option Text → Text
host_part none host = []
host_part (some []) host = []
host_part (some (c ∷ s)) host = lit "host:" ++ or_else host []

unfoldable pub variant_of :
    RouteConfig → Text → Text → IncomingHeaders → Option Text → Option Text → Text
variant_of route method query headers tenant_id host = join (lit "|") (
    method
    ∷ query
    ∷ tenant_part tenant_id
    ∷ host_part route.match_on.host host
    ∷ map (vary_part headers) (vary_by_of route.cache))

module _ (sha256 encode_uri_component : Text → Text) where
  unfoldable pub cache_key_prefix : Text → Option Text → Text
  cache_key_prefix route_id path =
      let route_part = lit "cache:" ++ (encode_uri_component route_id ++ lit ":") in
      elim path [ none ↦ route_part | some p ↦ route_part ++ (sha256 p ++ lit ":") ]

  -- The query is empty where the URL has none.
  unfoldable pub build_cache_key :
      RouteConfig → Text → Text → IncomingHeaders → Option Text → Option Text → Text
  build_cache_key route method url headers tenant_id host =
      let (path, query) = split_url url in
      cache_key_prefix route.id (some path)
      ++ sha256 (variant_of route method (or_else query []) headers tenant_id host)

-- The loop that copies every header but `set-cookie`.
unfoldable pub strip_from : Headers → Headers → Headers
strip_from [] result = result
strip_from ((key, value) ∷ rest) result =
    strip_from rest
      (if text_eq (to_lower key) (lit "set-cookie") then result else insert key value result)

unfoldable pub strip_uncacheable_headers : Headers → Headers
strip_uncacheable_headers headers = strip_from headers []
