-- ===== src/RateLimit/Enforce/Laws.antt =====
-- What the enforcement of a route's limits promises, over any store.
use apigateaway.Common.{
  if◌then◌else◌, ◌≡◌, refl, ap, subst, ◌∙◌, Bool, true, false, not, ◌||◌, Option, none, some, List,
  [], ◌∷◌, Text, find, any, all, is_some, Bool-cases, Option-cases, inl, inr,
}
use apigateaway.Config.{
  RateLimitConfig, GlobalRateLimitConfig, KeyStrategy, by_tenant, by_ip, by_global, is_global,
  is_refined, RouteConfig,
}
use apigateaway.Http.{sends}
use apigateaway.RateLimit.Types.{Policy, RateLimitResult}
use apigateaway.RateLimit.Enforce.{
  Check, RateLimitContext, global_check, check_of, checks_of, both, Enforced, is_rejected, report,
  decide, consume_all, run_checks, enforce_checks, enforce_rate_limit,
}

abbrev IsAnswer : Enforced → Type 0
IsAnswer e = sends e.calls ≡ (if e.passes then 0 else 1)

decide-IsAnswer :
    (fail_open : Bool) (results : Option (List RateLimitResult))
    → IsAnswer (decide fail_open results)
decide-IsAnswer true none = refl
decide-IsAnswer false none = refl
decide-IsAnswer fail_open (some rs) = of_report (find is_rejected rs) rs
  where
    of_report : (r : Option RateLimitResult) (rs : List RateLimitResult) → IsAnswer (report r rs)
    of_report none [] = refl
    of_report none (r ∷ rs) = refl
    of_report (some r) rs = refl

find-all :
    (rs : List RateLimitResult) → is_some (find is_rejected rs) ≡ not (all (λ r. r.allowed) rs)
find-all [] = refl
find-all (r ∷ rs) = elim (Bool-cases r.allowed) [ inl e ↦ rw e (find-all rs) | inr e ↦ rw e refl ]

report-passes :
    (r : Option RateLimitResult) (rs : List RateLimitResult)
    → (report r rs).passes ≡ not (is_some r)
report-passes none [] = refl
report-passes none (r ∷ rs) = refl
report-passes (some r) rs = refl

not-not : (b : Bool) → not (not b) ≡ b
not-not true = refl
not-not false = refl

decide-all :
    (fail_open : Bool) (rs : List RateLimitResult)
    → (decide fail_open (some rs)).passes ≡ all (λ r. r.allowed) rs
decide-all fail_open rs =
    report-passes (find is_rejected rs) rs
    ∙ ap not (find-all rs)
    ∙ not-not (all (λ r. r.allowed) rs)

is_some-both :
    (a b : Option (List Check)) → is_some a ≡ true → is_some b ≡ true → is_some (both a b) ≡ true
is_some-both none b h k = h
is_some-both (some a) none h k = k
is_some-both (some a) (some b) h k = refl

is_some-global_check :
    (route_id : Text) (g : Option GlobalRateLimitConfig)
    → is_some g ≡ true
    → is_some (global_check route_id g) ≡ true
is_some-global_check route_id none h = h
is_some-global_check route_id (some g) h = refl

or_true : (b c : Bool) → c ≡ true → (b || c) ≡ true
or_true true c h = refl
or_true false c h = h

-- Where every global strategy has its policy, the checks can be built.
checks_of-total :
    (route_id : Text) (c : RateLimitConfig) (ip : Text) (context : RateLimitContext)
    (ss : List KeyStrategy)
    → (not (any is_global ss) || is_some c.global) ≡ true
    → is_some (checks_of route_id c ip context ss) ≡ true
unfolding checks_of
checks_of-total route_id c ip context [] h = refl
checks_of-total route_id c ip context (by_ip ∷ ss) h =
    is_some-both (check_of route_id c ip context by_ip) (checks_of route_id c ip context ss) refl
      (checks_of-total route_id c ip context ss h)
checks_of-total route_id c ip context (by_tenant ∷ ss) h =
    is_some-both (check_of route_id c ip context by_tenant) (checks_of route_id c ip context ss)
      refl (checks_of-total route_id c ip context ss h)
checks_of-total route_id c ip context (by_global ∷ ss) h =
    is_some-both (global_check route_id c.global) (checks_of route_id c ip context ss)
      (is_some-global_check route_id c.global h)
      (checks_of-total route_id c ip context ss
        (or_true (not (any is_global ss)) (is_some c.global) h))

abbrev all_in : Option (List RateLimitResult) → Bool
all_in none = true
all_in (some rs) = all (λ r. r.allowed) rs

module _ {S : Type 0} (consume : S → Text → Policy → Option RateLimitResult × S) where
  abbrev AllAnswer : Option (Enforced × S) → Type 0
  AllAnswer none = Unit
  AllAnswer (some (e, store)) = IsAnswer e

  run_checks-IsAnswer :
      (fail_open : Bool) (store : S) (checks : List Check)
      → IsAnswer (run_checks consume fail_open store checks).0
  run_checks-IsAnswer fail_open store [] = refl
  run_checks-IsAnswer fail_open store (check ∷ checks) =
      decide-IsAnswer fail_open (consume_all consume store (check ∷ checks)).0

  enforce_checks-AllAnswer :
      (fail_open : Bool) (store : S) (checks : Option (List Check))
      → AllAnswer (enforce_checks consume fail_open store checks)
  enforce_checks-AllAnswer fail_open store none = tt
  enforce_checks-AllAnswer fail_open store (some checks) =
      run_checks-IsAnswer fail_open store checks

  -- Whatever the store does, the enforcement has answered a request that it stops exactly once, and
  -- one that it lets pass not at all.
  pub enforce_rate_limit-answers :
      (store store' : S) (route : RouteConfig) (ip : Text) (context : RateLimitContext)
      (fail_open : Bool) (out : Enforced)
      → enforce_rate_limit consume store route ip context fail_open ≡ some (out, store')
      → sends out.calls ≡ (if out.passes then 0 else 1)
  unfolding enforce_rate_limit
  enforce_rate_limit-answers store store' route ip context fail_open out h =
      subst AllAnswer h (elim (Option-cases route.rate_limit) [
        | inl e ↦ rw (e, enforce_rate_limit) refl
        | inr (c, e) ↦
            rw (e, enforce_rate_limit)
              (enforce_checks-AllAnswer fail_open store (checks_of route.id c ip context c.key_by))
      ])

  -- A request to a route whose limits the schema accepts is never met by an exception.
  enforce_rate_limit-total :
      (store : S) (route : RouteConfig) (c : RateLimitConfig) (ip : Text)
      (context : RateLimitContext) (fail_open : Bool)
      → route.rate_limit ≡ some c
      → is_refined c ≡ true
      → is_some (enforce_rate_limit consume store route ip context fail_open) ≡ true
  unfolding enforce_rate_limit is_refined
  enforce_rate_limit-total store route c ip context fail_open e h =
      rw (e, enforce_rate_limit)
        (of_checks (checks_of route.id c ip context c.key_by)
          (checks_of-total route.id c ip context c.key_by h))
    where
      of_checks :
          (checks : Option (List Check))
          → is_some checks ≡ true
          → is_some (enforce_checks consume fail_open store checks) ≡ true
      of_checks none k = k
      of_checks (some checks) k = refl

  -- Once the store has answered every check of a request, the request passes exactly if each of
  -- them allows it, and the store is as the checks leave it.
  pub enforce_rate_limit-all :
      (store store' : S) (route : RouteConfig) (c : RateLimitConfig) (ip : Text)
      (context : RateLimitContext) (fail_open : Bool) (checks : List Check)
      (results : List RateLimitResult)
      → route.rate_limit ≡ some c
      → checks_of route.id c ip context c.key_by ≡ some checks
      → consume_all consume store checks ≡ (some results, store')
      → (out : Enforced) × ((enforce_rate_limit consume store route ip context fail_open
            ≡ some (out, store'))
          × (out.passes ≡ all (λ r. r.allowed) results))
  unfolding enforce_rate_limit consume_all
  enforce_rate_limit-all store store' route c ip context fail_open checks results e f h =
      rw (e, enforce_rate_limit) (rw f (of_checks checks h))
    where
      of_checks :
          (checks : List Check)
          → consume_all consume store checks ≡ (some results, store')
          → (out : Enforced) × ((some (run_checks consume fail_open store checks)
                ≡ some (out, store'))
              × (out.passes ≡ all (λ r. r.allowed) results))
      of_checks [] k = (
        record { passes = true; calls = [] },
        (
          ap
              (λ (r : Option (List RateLimitResult) × S).
                some (record { passes = true; calls = [] }, r.1))
              k,
          ap (λ (r : Option (List RateLimitResult) × S). all_in r.0) k,
        ),
      )
      of_checks (check ∷ rest) k = (
        decide fail_open (some results),
        (
          ap (λ (r : Option (List RateLimitResult) × S). some (decide fail_open r.0, r.1)) k,
          decide-all fail_open results,
        ),
      )
