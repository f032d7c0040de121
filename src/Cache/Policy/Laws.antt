-- ===== src/Cache/Policy/Laws.antt =====
-- What may be cached, and for how long.
use apigateaway.Common.{
  ℕ, ◌≤◌, ◌≡◌, refl, ap, ◌∙◌, Bool, true, Option, none, some, List, [], ◌∷◌, map, Text, lit,
  includes, arith, if◌then◌else◌, ◌||◌, not, ◌&&◌, ◌≤?◌, ◌==◌, All, keep, split, split_free,
  split-append, IsFree, join, trim, to_lower,
}
use apigateaway.Proxy.Headers.{HeaderValue, one}
use apigateaway.Cache.Policy.{
  not_cacheable, is_not_empty, directives_of, max_age_from, decide_cacheability, ttl_of,
}

-- A directive as the code compares it: no comma, no space around it, in lower case, not empty.
pub record IsDirective (d : Text) : Type 0 where
  pub free : IsFree b',' d
  pub trimmed : trim d ≡ d
  pub lowered : to_lower d ≡ d
  pub nonempty : is_not_empty d ≡ true

abbrev pub IsDirectives : List Text → Type 0
IsDirectives = All IsDirective

tidy : List Text → List Text
tidy ds = keep is_not_empty (map (λ d. to_lower (trim d)) ds)

tidy-cons : (d : Text) (ds : List Text) → IsDirective d → tidy (d ∷ ds) ≡ d ∷ tidy ds
unfolding tidy
tidy-cons d ds h =
    let e : to_lower (trim d) ≡ d = ap to_lower h.trimmed ∙ h.lowered in rw (e, h.nonempty)

-- A space at the start is trimmed away.
tidy_space : (s : Text) → tidy (split b',' (32 ∷ s)) ≡ tidy (split b',' s)
unfolding tidy
tidy_space s = refl

tidy_nil : tidy [] ≡ []
unfolding tidy
tidy_nil = refl

tidy-join :
    (d : Text) (ds : List Text)
    → IsDirectives (d ∷ ds)
    → tidy (split b',' (join (lit ", ") (d ∷ ds))) ≡ d ∷ ds
tidy-join d [] (h, _) = rw (split_free b',' d h.free) (tidy-cons d [] h ∙ ap (◌∷◌ d) tidy_nil)
tidy-join d (e ∷ ds) (h, hs) =
    let rest = join (lit ", ") (e ∷ ds) in
    ap tidy (split-append b',' d (32 ∷ rest) h.free)
    ∙ tidy-cons d (split b',' (32 ∷ rest)) h
    ∙ ap (◌∷◌ d) (tidy_space rest ∙ tidy-join e ds hs)

-- A Cache-Control header that lists directives is read as those directives.
directives_of-join :
    (d : Text) (ds : List Text)
    → IsDirectives (d ∷ ds)
    → directives_of (some (one (join (lit ", ") (d ∷ ds)))) ≡ d ∷ ds
unfolding directives_of tidy
directives_of-join d ds h = tidy-join d ds h

guards :
    {A : Type 0} (a b c d e : Bool) (x y : A)
    → (if not a then y else if b || c || d then y else if e then y else x)
      ≡ (if a && not b && not c && not d && not e then x else y)
guards a b c d e x y = ground arith

-- With a Cache-Control header that lists directives, a response is cached exactly if its status is
-- 200, none of the three forbidding directives is among them and the time to keep it is positive.
-- That time is the last max-age that is a number, at most the route's, or else the route's.
pub decide_cacheability-join :
    (status : ℕ) (d : Text) (ds : List Text) (default : ℕ)
    → IsDirectives (d ∷ ds)
    → let ttl = ttl_of (max_age_from none (d ∷ ds)) default in
      decide_cacheability status (some (one (join (lit ", ") (d ∷ ds)))) default ≡ (
        if (status == 200)
          && not (includes (d ∷ ds) (lit "no-store"))
          && not (includes (d ∷ ds) (lit "no-cache"))
          && not (includes (d ∷ ds) (lit "private"))
          && not (ttl ≤? 0)
        then record { cacheable = true; ttl_sec = ttl }
        else not_cacheable)
unfolding decide_cacheability
decide_cacheability-join status d ds default h =
    rw (directives_of-join d ds h, decide_cacheability)
      (guards (status == 200) (includes (d ∷ ds) (lit "no-store"))
        (includes (d ∷ ds) (lit "no-cache")) (includes (d ∷ ds) (lit "private"))
        (ttl_of (max_age_from none (d ∷ ds)) default ≤? 0) _ not_cacheable)

-- Whatever the header says, a response is kept no longer than the route allows.
ttl_sec-decide_cacheability :
    (status : ℕ) (value : Option HeaderValue) (default : ℕ)
    → (decide_cacheability status value default).ttl_sec ≤ default
unfolding decide_cacheability
ttl_sec-decide_cacheability status value default = ground arith
