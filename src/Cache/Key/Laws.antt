-- ===== src/Cache/Key/Laws.antt =====
-- Which requests share a cached response, and which entries a purge reaches.
use apigateaway.Common.{
  text_eq_refl, ℕ, ◌+◌, ◌≡◌, ◌≢◌, refl, ap, sym, subst, ◌∙◌, true, Option, none, some, [], ◌∷◌,
  ◌++◌, append_assoc, if◌then◌else◌, ◌==◌, Text, lit, text_eq, to_lower, starts_with, or_else,
  IsFree, append_inj, length, length-append, arith, starts_with-append, lookup, insert,
  lookup-insert, text_eq_iff,
}
use apigateaway.Config.{RouteConfig}
use apigateaway.Proxy.Headers.{HeaderValue, one, IncomingHeaders, Headers, header}
use apigateaway.Proxy.Headers.Laws.{IsObject, prefer}
use apigateaway.Routing.{split_url}
use apigateaway.Cache.Key.{
  vary_value, vary_by_of, vary_part, tenant_part, variant_of, cache_key_prefix, build_cache_key,
  strip_from, strip_uncacheable_headers,
}

count : ℕ → Text → ℕ
count c [] = 0
count c (d ∷ s) = (if d == c then 1 else 0) + count c s

count-append : (c : ℕ) (s t : Text) → count c (s ++ t) ≡ count c s + count c t
unfolding count
count-append c [] t = omega arith
count-append c (d ∷ s) t = omega (arith, count-append c s t)

count_free : (c : ℕ) (s : Text) → IsFree c s → count c s ≡ 0
unfolding count
count_free c [] h = refl
count_free c (d ∷ s) (e, h) = ground (arith, count_free c s h)

not_free : (t q t' : Text) → IsFree b'|' t → IsFree b'|' t' → t ≡ q ++ (b'|' ∷ t') → ⊥
unfolding count
not_free t q t' h h' e = omega (
  arith,
  ap (count b'|') e,
  count-append b'|' q (b'|' ∷ t'),
  count_free b'|' t h,
  count_free b'|' t' h',
)

-- A text, a bar and a text without bars can be told apart again.
bar_inj :
    (q q' t t' : Text)
    → IsFree b'|' t
    → IsFree b'|' t'
    → q ++ (b'|' ∷ t) ≡ q' ++ (b'|' ∷ t')
    → (q ≡ q') × (t ≡ t')
bar_inj [] [] t t' h h' e = (refl, cc)
bar_inj [] (c ∷ q') t t' h h' e = absurd (not_free t q' t' h h' (cc))
bar_inj (c ∷ q) [] t t' h h' e = absurd (not_free t' q t h' h (cc))
bar_inj (c ∷ q) (d ∷ q') t t' h h' e = let (p, r) = bar_inj q q' t t' h h' (cc) in (cc, r)

-- A tenant of an authenticated request, whose id holds no bar.
abbrev pub IsPlainTenant : Text → Type 0
IsPlainTenant t = (t ≢ []) × IsFree b'|' t

tenant_part_plain : (t : Text) → t ≢ [] → tenant_part (some t) ≡ lit "tenant:" ++ t
tenant_part_plain [] h = absurd (h refl)
tenant_part_plain (c ∷ t) h = refl

-- The hash tells the two texts apart, if they differ.
abbrev pub NoCollision : (Text → Text) → Text → Text → Type 0
NoCollision sha256 a b = sha256 a ≡ sha256 b → a ≡ b

abbrev pub query_of : Text → Text
query_of url = or_else (split_url url).1 []

module _ (route : RouteConfig) (plain : vary_by_of route.cache ≡ [])
    (anywhere : route.match_on.host ≡ none) where
  variant_plain :
      (query : Text) (headers : IncomingHeaders) (tenant : Text) (host : Option Text)
      → tenant ≢ []
      → variant_of route (lit "GET") query headers (some tenant) host
        ≡ lit "GET|" ++ ((query ++ (b'|' ∷ (lit "tenant:" ++ tenant))) ++ lit "|")
  unfolding variant_of
  variant_plain query headers tenant host h =
      rw (plain, anywhere, tenant_part_plain tenant h)
        (ap (λ t. lit "GET|" ++ t)
          (sym (append_assoc query (b'|' ∷ (lit "tenant:" ++ tenant)) (lit "|"))))

append_cancel_right : (a b c : Text) → a ++ c ≡ b ++ c → a ≡ b
append_cancel_right a b c e =
    (append_inj a b c c (omega (arith, ap length e, length-append a c, length-append b c)) e).0

prefix-path :
    (sha256 encode : Text → Text) (id p : Text)
    → cache_key_prefix sha256 encode id (some p)
      ≡ cache_key_prefix sha256 encode id none ++ (sha256 p ++ lit ":")
unfolding cache_key_prefix
prefix-path sha256 encode id p = refl

variant_inj :
    (q q' t t' : Text)
    → IsFree b'|' t
    → IsFree b'|' t'
    → lit "GET|" ++ ((q ++ (b'|' ∷ (lit "tenant:" ++ t))) ++ lit "|")
      ≡ lit "GET|" ++ ((q' ++ (b'|' ∷ (lit "tenant:" ++ t'))) ++ lit "|")
    → (q ≡ q') × (t ≡ t')
variant_inj q q' t t' free free' e =
    let inner = (append_inj (lit "GET|") (lit "GET|") _ _ refl e).1 in
    let (same, tenants) =
      bar_inj q q' (lit "tenant:" ++ t) (lit "tenant:" ++ t')
        (refl, (refl, (refl, (refl, (refl, (refl, (refl, free)))))))
        (refl, (refl, (refl, (refl, (refl, (refl, (refl, free')))))))
        (append_cancel_right _ _ (lit "|") inner) in
    (same, (append_inj (lit "tenant:") (lit "tenant:") t t' refl tenants).1)

-- On a route with no `varyBy` and no host, two GET requests of tenants whose ids hold no bar share a
-- cached response only if they have the path, the query string and the tenant in common, provided
-- that the hashes have one length and do not collide on the two paths and on the two variants.
pub build_cache_key-inj :
    (sha256 encode : Text → Text) (route : RouteConfig) (url url' : Text)
    (headers headers' : IncomingHeaders) (tenant tenant' : Text) (host host' : Option Text)
    → vary_by_of route.cache ≡ []
    → route.match_on.host ≡ none
    → IsPlainTenant tenant
    → IsPlainTenant tenant'
    → ((a : Text) → length (sha256 a) ≡ 64)
    → NoCollision sha256 (split_url url).0 (split_url url').0
    → NoCollision sha256
        (variant_of route (lit "GET") (query_of url) headers (some tenant) host)
        (variant_of route (lit "GET") (query_of url') headers' (some tenant') host')
    → build_cache_key sha256 encode route (lit "GET") url headers (some tenant) host
      ≡ build_cache_key sha256 encode route (lit "GET") url' headers' (some tenant') host'
    → ((split_url url).0 ≡ (split_url url').0) × (query_of url ≡ query_of url') × (tenant ≡ tenant')
unfolding build_cache_key
build_cache_key-inj sha256 encode route url url' hs hs' t t' host host' plain anywhere p p' digest
      paths variants e =
    let path = (split_url url).0 in
    let path' = (split_url url').0 in
    let base = cache_key_prefix sha256 encode route.id none in
    let long : (x : Text)
        → length (cache_key_prefix sha256 encode route.id (some x)) ≡ length base + 65 =
      λ x. omega (
        arith,
        ap length (prefix-path sha256 encode route.id x),
        length-append base (sha256 x ++ lit ":"),
        length-append (sha256 x) (lit ":"),
        digest x,
      ) in
    let (front, back) =
      append_inj (cache_key_prefix sha256 encode route.id (some path))
        (cache_key_prefix sha256 encode route.id (some path')) _ _ (long path ∙ sym (long path'))
        e in
    let hashed =
      (append_inj base base (sha256 path ++ lit ":") (sha256 path' ++ lit ":") refl (
        sym (prefix-path sha256 encode route.id path)
        ∙ front
        ∙ prefix-path sha256 encode route.id path')).1 in
    let same = paths (append_cancel_right _ _ (lit ":") hashed) in
    let v = variant_plain route plain anywhere (query_of url) hs t host p.0 in
    let v' = variant_plain route plain anywhere (query_of url') hs' t' host' p'.0 in
    let (queries, tenants) =
      variant_inj (query_of url) (query_of url') t t' p.1 p'.1 (sym v ∙ variants back ∙ v') in
    (same, queries, tenants)

header_self :
    (name : Text) (value : HeaderValue) → header name ((name, some value) ∷ []) ≡ some value
header_self name value = ground (arith, text_eq_refl name)

vary_part_self :
    (name value : Text)
    → vary_part ((to_lower name, some (one value)) ∷ []) name ≡ to_lower name ++ (lit "=" ++ value)
vary_part_self name value =
    ap (λ o. to_lower name ++ (lit "=" ++ vary_value o)) (header_self (to_lower name) (one value))

-- The separator of a variant's parts is not escaped: on a route that varies by a header, a request
-- of one tenant can be given the variant of another tenant's request.
pub variant_of-collision :
    (route : RouteConfig) (name query value injected : Text) (tenant tenant' : Text)
    → vary_by_of route.cache ≡ name ∷ []
    → route.match_on.host ≡ none
    → tenant ≢ []
    → tenant' ≢ []
    → let part =
        λ (t : Text) (v : Text). lit "|tenant:" ++ t ++ lit "||" ++ to_lower name ++ lit "=" ++ v in
      variant_of route
        (lit "GET")
        (query ++ part tenant injected)
        ((to_lower name, some (one value)) ∷ [])
        (some tenant')
        none
      ≡ variant_of route
          (lit "GET")
          query
          ((to_lower name, some (one (injected ++ part tenant' value))) ∷ [])
          (some tenant)
          none
unfolding variant_of
variant_of-collision route name query value injected tenant tenant' vary anywhere h h' =
    rw
      (
        vary,
        anywhere,
        tenant_part_plain tenant h,
        tenant_part_plain tenant' h',
        vary_part_self name value,
        vary_part_self name _,
      )
      (simp append_assoc)

starts_with-append_of : (s t p : Text) → starts_with s p ≡ true → starts_with (s ++ t) p ≡ true
starts_with-append_of s t [] h = refl
starts_with-append_of [] t (d ∷ p) h = cc
starts_with-append_of (c ∷ s) t (d ∷ p) h = ground (arith, starts_with-append_of s t p)

-- Every entry of a route lies under the purge prefix of the route, and under that of its path.
starts_with-build_cache_key :
    (sha256 encode : Text → Text) (route : RouteConfig) (method url : Text)
    (headers : IncomingHeaders) (tenant host : Option Text)
    → let key = build_cache_key sha256 encode route method url headers tenant host in
      (starts_with key (cache_key_prefix sha256 encode route.id none) ≡ true)
      × (starts_with key (cache_key_prefix sha256 encode route.id (some (split_url url).0)) ≡ true)
unfolding build_cache_key
starts_with-build_cache_key sha256 encode route method url headers tenant host =
    let path = (split_url url).0 in
    let below = cache_key_prefix sha256 encode route.id none in
    let hash = sha256 (variant_of route method (query_of url) headers tenant host) in
    (
      starts_with-append_of (cache_key_prefix sha256 encode route.id (some path)) hash below (
          subst (λ k. starts_with k below ≡ true) (sym (prefix-path sha256 encode route.id path))
            (starts_with-append below (sha256 path ++ lit ":"))),
      starts_with-append (cache_key_prefix sha256 encode route.id (some path)) hash,
    )

colon_prefix :
    (a b rest : Text)
    → IsFree b':' a
    → IsFree b':' b
    → starts_with (b ++ (b':' ∷ rest)) (a ++ lit ":") ≡ true
    → a ≡ b
colon_prefix [] [] rest h h' e = refl
colon_prefix [] (d ∷ b) rest h h' e = ground arith
colon_prefix (c ∷ a) [] rest h h' e = ground arith
colon_prefix (c ∷ a) (d ∷ b) rest h h' e = ground (arith, colon_prefix a b rest h.1 h'.1)

-- A purge of one route reaches an entry of another only if their ids are encoded alike: the encoded
-- ids hold no colon.
purge_prefix-build_cache_key :
    (sha256 encode : Text → Text) (id : Text) (route : RouteConfig) (method url : Text)
    (headers : IncomingHeaders) (tenant host : Option Text)
    → IsFree b':' (encode id)
    → IsFree b':' (encode route.id)
    → starts_with
        (build_cache_key sha256 encode route method url headers tenant host)
        (cache_key_prefix sha256 encode id none)
      ≡ true
    → encode id ≡ encode route.id
unfolding build_cache_key cache_key_prefix
purge_prefix-build_cache_key sha256 encode id route method url headers tenant host h h' e =
    colon_prefix (encode id) (encode route.id) _ h h' (simp append_assoc at e)

lookup-strip_from :
    (k : Text) (headers result : Headers)
    → IsObject headers
    → lookup k (strip_from headers result) ≡ (
        if text_eq (to_lower k) (lit "set-cookie")
        then lookup k result
        else prefer (lookup k headers) (lookup k result))
unfolding strip_from
lookup-strip_from k [] result h = ground arith
lookup-strip_from k ((key, value) ∷ rest) result (fresh, h) = ground (
  arith,
  lookup-strip_from k rest result h,
  lookup-strip_from k rest (insert key value result) h,
  lookup-insert key k value result,
  text_eq_iff key k,
  fresh,
)

-- No Set-Cookie header is stored, however it is spelled, and every other header is.
pub lookup-strip_uncacheable_headers :
    (k : Text) (headers : Headers)
    → IsObject headers
    → lookup k (strip_uncacheable_headers headers)
      ≡ (if text_eq (to_lower k) (lit "set-cookie") then none else lookup k headers)
unfolding strip_uncacheable_headers
lookup-strip_uncacheable_headers k headers h = ground (arith, lookup-strip_from k headers [] h)
