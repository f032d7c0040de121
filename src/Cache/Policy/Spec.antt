-- ===== src/Cache/Policy/Spec.antt =====
-- What may be cached and for how long, told of the directives of a header and not of its text.
use apigateaway.Common.{
  ℕ, ◌+◌, ◌*◌, ◌-◌, ◌≤◌, min, ◌≡◌, refl, ap, ◌∙◌, Bool, true, false, Option, none, some, List, [],
  ◌∷◌, ◌++◌, map, any, Text, lit, text_eq, starts_with, includes, arith, if◌then◌else◌, ◌||◌, not,
  ◌&&◌, ◌≤?◌, ◌==◌, All, join, trim_start, trim_end, trim, drop, length,
}
use apigateaway.Proxy.Headers.{one}
use apigateaway.Cache.Policy.{
  Number, whole, digits_from, number_of, if_finite, not_cacheable, is_not_empty, max_age_from,
  decide_cacheability, ttl_of,
}
use apigateaway.Cache.Policy.Laws.{IsDirectives, decide_cacheability-join}

-- The number that decimal digits stand for, after what was read before.
abbrev pub decimal : ℕ → List ℕ → ℕ
decimal n [] = n
decimal n (d ∷ ds) = decimal (n * 10 + d) ds

abbrev pub AreDigits : List ℕ → Type 0
AreDigits = All (λ d. d ≤ 9)

-- A directive: those that forbid caching, a max-age in decimal digits, or another.
pub data Directive : Type 0 where
  forbids_store forbids_cache is_private : Directive
  keeps_for : List ℕ → Directive
  says : Text → Directive

abbrev digits_text : List ℕ → Text
digits_text digits = map (λ d. 48 + d) digits

-- How it is written.
abbrev pub written : Directive → Text
written forbids_store = lit "no-store"
written forbids_cache = lit "no-cache"
written is_private = lit "private"
written (keeps_for digits) = lit "max-age=" ++ digits_text digits
written (says text) = text

abbrev pub is_forbidding : Text → Bool
is_forbidding text =
    text_eq text (lit "no-store") || text_eq text (lit "no-cache") || text_eq text (lit "private")

-- A max-age has a digit, and another directive is not written as one of those before.
abbrev pub IsProper : Directive → Type 0
IsProper forbids_store = Unit
IsProper forbids_cache = Unit
IsProper is_private = Unit
IsProper (keeps_for digits) = AreDigits digits × (is_not_empty digits ≡ true)
IsProper (says text) = (is_forbidding text ≡ false) × (starts_with text (lit "max-age=") ≡ false)

abbrev pub forbids : Directive → Bool
forbids forbids_store = true
forbids forbids_cache = true
forbids is_private = true
forbids (keeps_for digits) = false
forbids (says text) = false

abbrev pub age_of : Directive → Option ℕ
age_of forbids_store = none
age_of forbids_cache = none
age_of is_private = none
age_of (keeps_for digits) = some (decimal 0 digits)
age_of (says text) = none

abbrev pub later_of : Option ℕ → Option ℕ → Option ℕ
later_of before none = before
later_of before (some n) = some n

-- The max-age of a list of directives is its last.
abbrev pub last_age : List Directive → Option ℕ
last_age [] = none
last_age (d ∷ ds) = later_of (age_of d) (last_age ds)

-- A max-age shortens the time of the route.
abbrev pub time_to_keep : Option ℕ → ℕ → ℕ
time_to_keep none default = default
time_to_keep (some n) default = min n default

digits_from-digits :
    (n : ℕ) (ds : List ℕ) → AreDigits ds → digits_from n (digits_text ds) ≡ whole (decimal n ds)
digits_from-digits n [] h = refl
digits_from-digits n (d ∷ ds) (h, hs) =
    let rest = digits_from-digits (n * 10 + d) ds hs in
    let low : (48 ≤? 48 + d) ≡ true = ground arith in
    let high : (48 + d ≤? 57) ≡ true = ground (arith, h) in
    let value : 48 + d - 48 ≡ d = omega arith in rw (low, high, value) rest

trim_end-digits : (ds : List ℕ) → AreDigits ds → trim_end (digits_text ds) ≡ digits_text ds
trim_end-digits [] h = refl
trim_end-digits (d ∷ []) (h, hs) = ground (arith, h)
trim_end-digits (d ∷ e ∷ ds) (h, hs) = rw (trim_end-digits (e ∷ ds) hs) refl

trim-digits : (ds : List ℕ) → AreDigits ds → trim (digits_text ds) ≡ digits_text ds
trim-digits [] h = refl
trim-digits (d ∷ ds) (h, hs) =
    let start : trim_start (digits_text (d ∷ ds)) ≡ digits_text (d ∷ ds) = ground (arith, h) in
    ap trim_end start ∙ trim_end-digits (d ∷ ds) (h, hs)

number_of-digits :
    (ds : List ℕ)
    → AreDigits ds
    → is_not_empty ds ≡ true
    → number_of (digits_text ds) ≡ whole (decimal 0 ds)
unfolding number_of
number_of-digits [] h full = cc
number_of-digits (d ∷ []) h full = rw (trim-digits (d ∷ []) h) (digits_from-digits 0 (d ∷ []) h)
number_of-digits (d ∷ e ∷ ds) (h, hs) full =
    let no_minus : (48 + d == 45) ≡ false = ground arith in
    let no_plus : (48 + d == 43) ≡ false = ground arith in
    rw (trim-digits (d ∷ e ∷ ds) (h, hs))
      (rw (no_minus, no_plus) (digits_from-digits 0 (d ∷ e ∷ ds) (h, hs)))

abbrev read_after : Option Number → Option ℕ → Option Number
read_after found none = found
read_after found (some n) = some (whole n)

read_after-later_of :
    (found : Option Number) (a b : Option ℕ)
    → read_after (read_after found a) b ≡ read_after found (later_of a b)
read_after-later_of found a none = refl
read_after-later_of found a (some n) = refl

max_age_from-written :
    (found : Option Number) (ds : List Directive)
    → All IsProper ds
    → max_age_from found (map written ds) ≡ read_after found (last_age ds)
unfolding max_age_from
max_age_from-written found [] h = refl
max_age_from-written found (d ∷ ds) (h, hs) =
    ap (λ f. max_age_from f (map written ds)) (of_one d h)
    ∙ max_age_from-written (read_after found (age_of d)) ds hs
    ∙ read_after-later_of found (age_of d) (last_age ds)
  where
    of_one :
        (d : Directive)
        → IsProper d
        → (if starts_with (written d) (lit "max-age=")
            then if_finite (number_of (drop (length (lit "max-age=")) (written d))) found
            else found)
          ≡ read_after found (age_of d)
    of_one forbids_store h = refl
    of_one forbids_cache h = refl
    of_one is_private h = refl
    of_one (keeps_for digits) (h, full) =
        ap (λ n. if_finite n found) (number_of-digits digits h full)
    of_one (says text) (h, other) = rw other refl

is_forbidding-written : (d : Directive) → IsProper d → is_forbidding (written d) ≡ forbids d
is_forbidding-written forbids_store h = refl
is_forbidding-written forbids_cache h = refl
is_forbidding-written is_private h = refl
is_forbidding-written (keeps_for digits) h = refl
is_forbidding-written (says text) (h, other) = h

regroup :
    (a b c x y z : Bool) → ((a || x) || (b || y) || (c || z)) ≡ ((a || b || c) || (x || y || z))
regroup a b c x y z = ground arith

any-forbids :
    (ds : List Directive)
    → All IsProper ds
    → (includes (map written ds) (lit "no-store")
        || includes (map written ds) (lit "no-cache")
        || includes (map written ds) (lit "private"))
      ≡ any forbids ds
any-forbids [] h = refl
any-forbids (d ∷ ds) (h, hs) =
    regroup (text_eq (written d) (lit "no-store")) (text_eq (written d) (lit "no-cache"))
      (text_eq (written d) (lit "private")) (includes (map written ds) (lit "no-store"))
      (includes (map written ds) (lit "no-cache")) (includes (map written ds) (lit "private"))
    ∙ rw (is_forbidding-written d h, any-forbids ds hs) refl

ttl_of-time_to_keep :
    (age : Option ℕ) (default : ℕ) → ttl_of (read_after none age) default ≡ time_to_keep age default
ttl_of-time_to_keep none default = refl
ttl_of-time_to_keep (some n) default = refl

guarded :
    (s a b c f : Bool) (t t' : ℕ)
    → t ≡ t'
    → (a || b || c) ≡ f
    → (if s && not a && not b && not c && not (t ≤? 0)
        then record { cacheable = true; ttl_sec = t }
        else not_cacheable)
      ≡ (if s && not f && not (t' ≤? 0)
          then record { cacheable = true; ttl_sec = t' }
          else not_cacheable)
guarded s a b c f t t' p q = rw (p, ← q) (ground arith)

-- With a Cache-Control header that lists directives, each max-age in decimal digits, a response is
-- cached exactly if its status is 200, no directive forbids it and the time to keep it is not zero.
-- That time is the number of the last max-age, but at most the route's, and the route's without one.
pub decide_cacheability-written :
    (status : ℕ) (d : Directive) (ds : List Directive) (default : ℕ)
    → All IsProper (d ∷ ds)
    → IsDirectives (map written (d ∷ ds))
    → let ttl = time_to_keep (last_age (d ∷ ds)) default in
      decide_cacheability status (some (one (join (lit ", ") (map written (d ∷ ds))))) default ≡ (
        if (status == 200) && not (any forbids (d ∷ ds)) && not (ttl ≤? 0)
        then record { cacheable = true; ttl_sec = ttl }
        else not_cacheable)
decide_cacheability-written status d ds default proper plain =
    let texts = map written (d ∷ ds) in
    let age = max_age_from-written none (d ∷ ds) proper in
    let ttl : ttl_of (max_age_from none (map written (d ∷ ds))) default
        ≡ time_to_keep (last_age (d ∷ ds)) default =
      ap (λ a. ttl_of a default) age ∙ ttl_of-time_to_keep (last_age (d ∷ ds)) default in
    decide_cacheability-join status (written d) (map written ds) default plain
    ∙ guarded (status == 200) (includes texts (lit "no-store")) (includes texts (lit "no-cache"))
        (includes texts (lit "private")) (any forbids (d ∷ ds)) _ _ ttl
        (any-forbids (d ∷ ds) proper)
