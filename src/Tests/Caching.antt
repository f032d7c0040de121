-- ===== src/Tests/Caching.antt =====
-- The response cache at concrete inputs.
use apigateaway.Common.{
  ℕ, zero, suc, ◌≡◌, refl, ap, true, not, ◌&&◌, none, some, List, [], ◌∷◌, ◌++◌, if◌then◌else◌,
  ◌==◌, ◌≤?◌, Text, lit, text_eq, to_lower, join, map, any, starts_with, length, keep, lookup,
  arith,
}
use apigateaway.Config.{RouteConfig, no_auth}
use apigateaway.Proxy.Headers.{one, Headers}
use apigateaway.Cache.Policy.{decide_cacheability, not_cacheable}
use apigateaway.Cache.Policy.Laws.{IsDirective}
use apigateaway.Cache.Policy.Spec.{
  Directive, keeps_for, says, written, forbids, last_age, time_to_keep, decide_cacheability-written,
}
use apigateaway.Cache.Store.{CachedResponse, Entries, delete_by_prefix}
use apigateaway.Cache.Store.Laws.{seen, is_live_match, delete_by_prefix_lem}
use apigateaway.Cache.Key.{variant_of, strip_uncacheable_headers}
use apigateaway.Cache.Key.Laws.{
  build_cache_key-inj, variant_of-collision, lookup-strip_uncacheable_headers,
}
use apigateaway.Routing.{split_url}

public : IsDirective (lit "public")
public = record {
  free = (refl, (refl, (refl, (refl, (refl, (refl, tt))))));
  trimmed = refl;
  lowered = refl;
  nonempty = refl;
}

max_age : IsDirective (lit "max-age=30")
max_age = record {
  free = (refl, (refl, (refl, (refl, (refl, (refl, (refl, (refl, (refl, (refl, tt))))))))));
  trimmed = refl;
  lowered = refl;
  nonempty = refl;
}

abbrev directives : List Directive
directives = says (lit "public") ∷ keeps_for (3 ∷ 0 ∷ []) ∷ []

decide_cacheability-written_example :
    let ttl = time_to_keep (last_age directives) 60 in
    decide_cacheability 200 (some (one (join (lit ", ") (map written directives)))) 60 ≡ (
      if (200 == 200) && not (any forbids directives) && not (ttl ≤? 0)
      then record { cacheable = true; ttl_sec = ttl }
      else not_cacheable)
decide_cacheability-written_example =
    decide_cacheability-written 200 (says (lit "public")) (keeps_for (3 ∷ 0 ∷ []) ∷ []) 60
      ((refl, refl), (((omega arith, (omega arith, tt)), refl), tt)) (public, (max_age, tt))

abbrev response : CachedResponse
response = record { status_code = 200; headers = []; body = lit "hi" }

abbrev entries : Entries
entries = (lit "cache:a:1", record { response = response; expires_at = 100 }) ∷ []

delete_by_prefix_lem_example :
    ((delete_by_prefix entries (lit "cache:a:") 50).0
      ≡ length (keep (is_live_match (lit "cache:a:") 50) entries))
    × (seen (delete_by_prefix entries (lit "cache:a:") 50).1 (lit "cache:a:1") 60 ≡ (
        if starts_with (lit "cache:a:1") (lit "cache:a:")
        then none
        else seen entries (lit "cache:a:1") 60))
delete_by_prefix_lem_example = delete_by_prefix_lem entries (lit "cache:a:") (lit "cache:a:1") 50 60

-- A route whose responses vary by the given headers.
abbrev varying : List Text → RouteConfig
varying names = record {
  id = lit "a";
  match_on = record { path = lit "/*"; methods = none; host = none };
  strip_prefix = none;
  upstream = record {
    targets = lit "http://u" ∷ [];
    health_check = none;
    timeout_ms = 1000;
    body_timeout_ms = none;
  };
  auth = no_auth;
  rate_limit = none;
  cache = some (record { enabled = true; ttl_sec = 60; vary_by = names });
  cors = none;
  websocket = none;
  transform = none;
  retry = none;
  circuit_breaker = none;
}

variant_of-collision_example :
    let part = λ (t : Text) (v : Text).
      lit "|tenant:" ++ t ++ lit "||" ++ to_lower (lit "accept") ++ lit "=" ++ v in
    variant_of
      (varying (lit "accept" ∷ []))
      (lit "GET")
      (lit "q" ++ part (lit "t1") (lit "x"))
      ((to_lower (lit "accept"), some (one (lit "y"))) ∷ [])
      (some (lit "t2"))
      none
    ≡ variant_of
        (varying (lit "accept" ∷ []))
        (lit "GET")
        (lit "q")
        ((to_lower (lit "accept"), some (one (lit "x" ++ part (lit "t2") (lit "y")))) ∷ [])
        (some (lit "t1"))
        none
variant_of-collision_example =
    variant_of-collision (varying (lit "accept" ∷ [])) (lit "accept") (lit "q") (lit "y") (lit "x")
      (lit "t1") (lit "t2") refl refl (λ h. cc) (λ h. cc)

-- Hashes of 64 characters that tell a text apart by its first ones.
abbrev padded : ℕ → Text → Text
padded zero s = []
padded (suc n) [] = 0 ∷ padded n []
padded (suc n) (c ∷ s) = c ∷ padded n s

length-padded : (n : ℕ) (s : Text) → length (padded n s) ≡ n
length-padded zero s = refl
length-padded (suc n) [] = ap suc (length-padded n [])
length-padded (suc n) (c ∷ s) = ap suc (length-padded n s)

abbrev same : Text → Text
same s = s

build_cache_key-inj_example :
    (lit "/p" ≡ lit "/p") × (lit "x=1" ≡ lit "x=1") × (lit "t1" ≡ lit "t1")
unfolding split_url
build_cache_key-inj_example =
    build_cache_key-inj (padded 64) same (varying []) (lit "/p?x=1") (lit "/p?x=1") [] [] (lit "t1")
      (lit "t1") none none refl refl ((λ h. cc), (refl, (refl, tt))) ((λ h. cc), (refl, (refl, tt)))
      (length-padded 64) (λ h. refl) (λ h. refl) refl

abbrev stored : Headers
stored = (lit "Set-Cookie", one (lit "s=1")) ∷ (lit "content-type", one (lit "text/html")) ∷ []

lookup-strip_uncacheable_headers_example :
    lookup (lit "Set-Cookie") (strip_uncacheable_headers stored) ≡ (
      if text_eq (to_lower (lit "Set-Cookie")) (lit "set-cookie")
      then none
      else lookup (lit "Set-Cookie") stored)
lookup-strip_uncacheable_headers_example =
    lookup-strip_uncacheable_headers (lit "Set-Cookie") stored (refl, (refl, tt))
