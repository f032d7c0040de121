-- ===== src/Cache/Policy.antt =====
-- packages/core/src/cache/policy.ts
pub mod Laws
pub mod Spec
use apigateaway.Common.{
  ℕ, ◌+◌, ◌-◌, ◌*◌, min, Bool, true, false, not, ◌&&◌, ◌||◌, Option, none, some, List, [], ◌∷◌, map,
  if◌then◌else◌, ◌==◌, ◌≤?◌, Text, lit, starts_with, to_lower, trim, join, split, includes, length,
  drop, keep, or_else,
}
use apigateaway.Proxy.Headers.{HeaderValue, one, many}

pub record CacheDecision : Type 0 where
  pub cacheable : Bool
  pub ttl_sec : ℕ

-- What `Number(text)` gives: NaN, a whole number, or one below zero.
pub data Number : Type 0 where
  nan : Number
  whole : ℕ → Number
  below_zero : Number

-- The digits of a text after the number read so far.
abbrev pub digits_from : ℕ → Text → Number
digits_from n [] = whole n
digits_from n (c ∷ s) =
    let rest = digits_from (n * 10 + (c - b'0')) s in
    if (b'0' ≤? c) && (c ≤? b'9') then rest else nan

abbrev pub negate : Number → Number
negate nan = nan
negate (whole n) = below_zero
negate below_zero = below_zero

-- `-0` is no more than 0, and is counted below it.
abbrev pub number_of_trimmed : Text → Number
number_of_trimmed [] = whole 0
number_of_trimmed (c ∷ []) = digits_from 0 (c ∷ [])
number_of_trimmed (c ∷ d ∷ s) =
    if c == b'-'
    then negate (digits_from 0 (d ∷ s))
    else if c == b'+'
    then digits_from 0 (d ∷ s)
    else digits_from 0 (c ∷ d ∷ s)

-- `Number(text)` on signed decimal integers. Fractions, exponents and other bases, which RFC 9111
-- does not allow in a max-age, are read as NaN.
unfoldable pub number_of : Text → Number
number_of s = number_of_trimmed (trim s)

-- `Array.isArray(value) ? value.join(', ') : (value ?? '')`
abbrev pub raw_of : Option HeaderValue → Text
raw_of none = []
raw_of (some (one value)) = value
raw_of (some (many values)) = join (lit ", ") values

abbrev pub is_not_empty : Text → Bool
is_not_empty [] = false
is_not_empty (c ∷ s) = true

unfoldable pub directives_of : Option HeaderValue → List Text
directives_of value = keep is_not_empty (map (λ d. to_lower (trim d)) (split b',' (raw_of value)))

-- A number that is not finite leaves what was read before.
abbrev pub if_finite : Number → Option Number → Option Number
if_finite nan before = before
if_finite (whole n) before = some (whole n)
if_finite below_zero before = some below_zero

-- The loop over the directives: the last max-age that is a number.
unfoldable pub max_age_from : Option Number → List Text → Option Number
max_age_from found [] = found
max_age_from found (d ∷ ds) =
    max_age_from
      (if starts_with d (lit "max-age=")
        then if_finite (number_of (drop (length (lit "max-age=")) d)) found
        else found)
      ds

pub record CacheControlDirectives : Type 0 where
  pub no_store : Bool
  pub no_cache : Bool
  pub private : Bool
  pub max_age : Option Number

unfoldable pub parse_cache_control : Option HeaderValue → CacheControlDirectives
parse_cache_control value = record {
  no_store = includes (directives_of value) (lit "no-store");
  no_cache = includes (directives_of value) (lit "no-cache");
  private = includes (directives_of value) (lit "private");
  max_age = max_age_from none (directives_of value);
}

-- `Math.min(maxAge, defaultTtlSec)`, or the default; what is below zero is 0 here, as the test that
-- follows treats them alike.
abbrev pub ttl_of : Option Number → ℕ → ℕ
ttl_of none default = default
ttl_of (some nan) default = default
ttl_of (some (whole n)) default = min n default
ttl_of (some below_zero) default = 0

abbrev pub not_cacheable : CacheDecision
not_cacheable = record { cacheable = false; ttl_sec = 0 }

unfoldable pub decide_cacheability : ℕ → Option HeaderValue → ℕ → CacheDecision
unfolding parse_cache_control
decide_cacheability status_code cache_control default_ttl_sec =
    let directives = parse_cache_control cache_control in
    let ttl_sec = ttl_of directives.max_age default_ttl_sec in
    if not (status_code == 200)
    then not_cacheable
    else if directives.no_store || directives.no_cache || directives.private
    then not_cacheable
    else if ttl_sec ≤? 0
    then not_cacheable
    else record { cacheable = true; ttl_sec = ttl_sec }
