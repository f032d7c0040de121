-- ===== src/Routing/Laws.antt =====
-- Which route a request gets.
use apigateaway.Common.{
  ◌≡◌, ap, inl, inr, Bool, true, false, Option, none, some, List, [], ◌∷◌, ◌++◌, arith, Bool-cases,
  Option-cases, Text, find, All,
}
use apigateaway.Config.{RouteConfig}
use apigateaway.Routing.{normalize_host, accepts, match_route}
use apigateaway.Routing.Fits.{Fits, accepts-Fits}

-- The find of a list: the first element that passes, behind ones that do not.
find-first :
    {A : Type 0} (p : A → Bool) (xs : List A) (x : A)
    → find p xs ≡ some x
    → (before : List A) × (after : List A) × (xs ≡ before ++ x ∷ after)
      × All (λ y. p y ≡ false) before
      × (p x ≡ true)
find-first p [] x e = cc
find-first p (y ∷ xs) x e = elim (Bool-cases (p y)) [
  | inl passes ↦ ([], xs, ground arith, tt, ground arith)
  | inr fails ↦
      let (before, after, split, refused, passes) = find-first p xs x (ground arith) in
      (y ∷ before, after, ap (◌∷◌ y) split, (fails, refused), passes)
]

find-none : {A : Type 0} (p : A → Bool) (xs : List A) → find p xs ≡ none → All (λ y. p y ≡ false) xs
find-none p [] e = tt
find-none p (y ∷ xs) e = (ground arith, find-none p xs (ground arith))

-- Routes none of which fits.
abbrev pub NoneFits : Text → Text → Option Text → List RouteConfig → Type 0
NoneFits method path host routes = All (λ r. Fits method path host r → ⊥) routes

All-NoneFits :
    (method path : Text) (host : Option Text) (routes : List RouteConfig)
    → All (λ r. accepts method path host r ≡ false) routes
    → NoneFits method path host routes
All-NoneFits method path host [] h = tt
All-NoneFits method path host (r ∷ rs) (h, hs) =
    (λ f. clash ((accepts-Fits method path host r).1 f), All-NoneFits method path host rs hs)
  where
    clash : accepts method path host r ≡ true → ⊥
    clash t = absurd cc

-- The route fits, and none before it does; or there is no route, and none fits.
abbrev pub IsFirst : List RouteConfig → Text → Text → Option Text → Option RouteConfig → Type 0
IsFirst routes method path host none = NoneFits method path host routes
IsFirst routes method path host (some route) =
    (before : List RouteConfig) × (after : List RouteConfig) × (routes ≡ before ++ route ∷ after)
    × NoneFits method path host before
    × Fits method path host route

-- A request gets the first route that fits it, and none only if no route fits. A route fits if it
-- lists the method or no methods; if its path is the pattern, or is or lies below what stands before
-- the `/*` of a pattern; and if it asks for no host, or for the host of the request, or for `*.` and
-- a domain that the host is a proper subdomain of.
pub match_route-IsFirst :
    (routes : List RouteConfig) (method path : Text) (host : Option Text)
    → IsFirst routes method path (normalize_host host) (match_route routes method path host)
unfolding match_route
match_route-IsFirst routes method path host =
    elim (Option-cases (find (accepts method path (normalize_host host)) routes)) [
      | inl e ↦
          rw (e, match_route)
            (All-NoneFits method path (normalize_host host) routes
              (find-none (accepts method path (normalize_host host)) routes e))
      | inr (route, e) ↦
          let (before, after, split, refused, passes) =
            find-first (accepts method path (normalize_host host)) routes route e in
          rw (e, match_route)
            (
              before,
              after,
              split,
              All-NoneFits method path (normalize_host host) before refused,
              (accepts-Fits method path (normalize_host host) route).0 passes,
            )
    ]
