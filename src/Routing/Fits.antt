-- ===== src/Routing/Fits.antt =====
-- What a route asks of a request, told without the code, and that the code asks just that.
use apigateaway.Common.{
  ◌-◌, ◌≡◌, ◌≢◌, ◌<◌, refl, ap, sym, subst, ◌∙◌, ◌↔◌, ◌⊎◌, inl, inr, true, ◌&&◌, ◌||◌, Option, none,
  some, List, [], ◌∷◌, ◌++◌, append_assoc, ◌<?◌, arith, Bool-cases, includes, Text, lit, text_eq,
  eq_of_text_eq, text_eq_refl, starts_with, ends_with, starts_with-append,
  append-drop_of_starts_with, ends_with-append, eq-append_of_ends_with, to_lower, length,
  length-append, drop, take,
}
use apigateaway.Config.{RouteConfig}
use apigateaway.Routing.{
  matches_path, matches_host, matches_host_name, matches_method, drop_last, accepts,
}

take-append : (s t : Text) → take (length s) (s ++ t) ≡ s
take-append [] t = refl
take-append (c ∷ s) t = ap (◌∷◌ c) (take-append s t)

drop_last-append : (s t : Text) → drop_last (length t) (s ++ t) ≡ s
drop_last-append s t =
    let e : length (s ++ t) - length t ≡ length s = omega (arith, length-append s t) in
    ap (λ n. take n (s ++ t)) e ∙ take-append s t

-- A pattern that ends in `/*` matches what stands before that, and whatever lies below it.
matches_path_wildcard :
    (prefix path : Text)
    → (matches_path (prefix ++ lit "/*") path ≡ true)
      ↔ ((path ≡ prefix) ⊎ ((rest : Text) × (path ≡ prefix ++ (lit "/" ++ rest))))
unfolding matches_path
matches_path_wildcard prefix path =
    rw (ends_with-append prefix (lit "/*"), drop_last-append prefix (lit "/*")) (to, from)
  where
    to :
        (text_eq path prefix || starts_with path (prefix ++ lit "/")) ≡ true
        → (path ≡ prefix) ⊎ ((rest : Text) × (path ≡ prefix ++ (lit "/" ++ rest)))
    to h = elim (Bool-cases (text_eq path prefix)) [
      | inl e ↦ inl (eq_of_text_eq path prefix e)
      | inr e ↦ inr (
        drop (length (prefix ++ lit "/")) path,
        append-drop_of_starts_with path (prefix ++ lit "/") (ground arith)
            ∙ append_assoc prefix (lit "/") _,
      )
    ]

    from :
        (path ≡ prefix) ⊎ ((rest : Text) × (path ≡ prefix ++ (lit "/" ++ rest)))
        → (text_eq path prefix || starts_with path (prefix ++ lit "/")) ≡ true
    from (inl e) = rw (e, text_eq_refl prefix)
    from (inr (rest, e)) =
        let below =
          subst (λ t. starts_with t (prefix ++ lit "/") ≡ true)
            (append_assoc prefix (lit "/") rest ∙ sym e)
            (starts_with-append (prefix ++ lit "/") rest) in
        ground (arith, below)

-- A host pattern `*.domain` matches what has something before `.domain`, so not `domain` itself.
wildcard_host :
    (domain host : Text)
    → (matches_host_name (lit "*." ++ domain) host ≡ true)
      ↔ ((sub : Text) × (sub ≢ []) × (host ≡ sub ++ (lit "." ++ domain)))
wildcard_host domain host = (to, from)
  where
    suffix : Text
    suffix = lit "." ++ domain

    to :
        ((length suffix <? length host) && ends_with host suffix) ≡ true
        → (sub : Text) × (sub ≢ []) × (host ≡ sub ++ suffix)
    to h =
        let (sub, e) = eq-append_of_ends_with host suffix (ground arith) in
        (sub, λ empty. absurd (too_short sub e empty (ground arith)), e)
      where
        too_short : (sub : Text) → host ≡ sub ++ suffix → sub ≡ [] → length suffix < length host → ⊥
        too_short sub e empty longer =
            let same : host ≡ suffix = e ∙ ap (λ t. t ++ suffix) empty in
            omega (arith, ap length same)

    from :
        (sub : Text) × (sub ≢ []) × (host ≡ sub ++ suffix)
        → ((length suffix <? length host) && ends_with host suffix) ≡ true
    from ([], nonempty, e) = absurd (nonempty refl)
    from (c ∷ sub, nonempty, e) =
        rw e (ground (arith, ends_with-append (c ∷ sub) suffix, length-append (c ∷ sub) suffix))

-- What a route asks of a method, a path and a host, told without the code.
abbrev pub MethodFits : Option (List Text) → Text → Type 0
MethodFits none method = Unit
MethodFits (some methods) method =
    (before : List Text) × (after : List Text) × (methods ≡ before ++ method ∷ after)

-- The path is the pattern, or the pattern ends in `/*` and the path is what stands before that or
-- lies below it.
abbrev pub PathFits : Text → Text → Type 0
PathFits pattern path =
    (path ≡ pattern)
    ⊎ ((prefix : Text) × (pattern ≡ prefix ++ lit "/*")
        × ((path ≡ prefix) ⊎ ((rest : Text) × (path ≡ prefix ++ (lit "/" ++ rest)))))

-- The host is the pattern in lower case, or a proper subdomain of a domain behind `*.`.
abbrev pub HostFits : Option Text → Option Text → Type 0
HostFits none host = Unit
HostFits (some pattern) none = ⊥
HostFits (some pattern) (some host) =
    (host ≡ to_lower pattern)
    ⊎ ((domain : Text) × (sub : Text) × (to_lower pattern ≡ lit "*." ++ domain)
        × (sub ≢ [])
        × (host ≡ sub ++ (lit "." ++ domain)))

abbrev pub Fits : Text → Text → Option Text → RouteConfig → Type 0
Fits method path host route =
    MethodFits route.match_on.methods method
    × PathFits route.match_on.path path
    × HostFits route.match_on.host host

includes-Fits :
    (methods : List Text) (method : Text)
    → (includes methods method ≡ true) ↔ MethodFits (some methods) method
includes-Fits methods method = (to methods, λ (before, after, e). rw e (from before after))
  where
    to : (ms : List Text) → includes ms method ≡ true → MethodFits (some ms) method
    to [] h = cc
    to (m ∷ ms) h = elim (Bool-cases (text_eq m method)) [
      | inl e ↦ ([], ms, ap (λ t. t ∷ ms) (eq_of_text_eq m method e))
      | inr e ↦ let (before, after, q) = to ms (ground arith) in (m ∷ before, after, ap (◌∷◌ m) q)
    ]

    from : (before after : List Text) → includes (before ++ method ∷ after) method ≡ true
    from [] after = ground (arith, text_eq_refl method)
    from (m ∷ before) after = ground (arith, from before after)

matches_path-Fits :
    (pattern path : Text) → (matches_path pattern path ≡ true) ↔ PathFits pattern path
unfolding matches_path
matches_path-Fits pattern path = (to, from)
  where
    wild :
        (prefix : Text)
        → pattern ≡ prefix ++ lit "/*"
        → (matches_path pattern path ≡ true)
          ↔ ((path ≡ prefix) ⊎ ((rest : Text) × (path ≡ prefix ++ (lit "/" ++ rest))))
    wild prefix e =
        subst
          (λ p.
            (matches_path p path ≡ true)
            ↔ ((path ≡ prefix) ⊎ ((rest : Text) × (path ≡ prefix ++ (lit "/" ++ rest)))))
          (sym e) (matches_path_wildcard prefix path)

    to : matches_path pattern path ≡ true → PathFits pattern path
    to h = elim (Bool-cases (ends_with pattern (lit "/*"))) [
      | inr e ↦ inl (sym (sym (eq_of_text_eq path pattern (rw (e, matches_path) at h))))
      | inl e ↦
          let (prefix, q) = eq-append_of_ends_with pattern (lit "/*") e in
          inr (prefix, q, (wild prefix q).0 h)
    ]

    from : PathFits pattern path → matches_path pattern path ≡ true
    from (inr (prefix, q, f)) = (wild prefix q).1 f
    from (inl same) = elim (Bool-cases (ends_with pattern (lit "/*"))) [
      | inr e ↦ rw (e, same, matches_path) (text_eq_refl pattern)
      | inl e ↦
          let (prefix, q) = eq-append_of_ends_with pattern (lit "/*") e in
          (wild prefix q).1 (inr (lit "*", same ∙ q))
    ]

matches_host-Fits :
    (pattern host : Option Text) → (matches_host pattern host ≡ true) ↔ HostFits pattern host
unfolding matches_host
matches_host-Fits none host = (λ h. tt, λ h. refl)
matches_host-Fits (some pattern) none = (λ h. cc, λ h. absurd h)
matches_host-Fits (some pattern) (some host) = (to, from)
  where
    to : matches_host (some pattern) (some host) ≡ true → HostFits (some pattern) (some host)
    to h = elim (Bool-cases (starts_with (to_lower pattern) (lit "*."))) [
      | inr e ↦ inl (eq_of_text_eq host (to_lower pattern) (rw (e, matches_host) at h))
      | inl e ↦
          let q = append-drop_of_starts_with (to_lower pattern) (lit "*.") e in
          let (sub, full, r) =
            (wildcard_host (drop 2 (to_lower pattern)) host).0 (rw (q, matches_host) at h) in
          inr (drop 2 (to_lower pattern), sub, q, full, r)
    ]

    from : HostFits (some pattern) (some host) → matches_host (some pattern) (some host) ≡ true
    from (inr (domain, sub, q, full, r)) =
        rw (q, matches_host) ((wildcard_host domain host).1 (sub, full, r))
    from (inl same) = elim (Bool-cases (starts_with (to_lower pattern) (lit "*."))) [
      | inr e ↦ rw (e, same, matches_host) (text_eq_refl (to_lower pattern))
      | inl e ↦
          let q = append-drop_of_starts_with (to_lower pattern) (lit "*.") e in
          rw (q, matches_host)
            ((wildcard_host (drop 2 (to_lower pattern)) host).1 (lit "*", (λ empty. cc), same ∙ q))
    ]

pub accepts-Fits :
    (method path : Text) (host : Option Text) (route : RouteConfig)
    → (accepts method path host route ≡ true) ↔ Fits method path host route
unfolding matches_method
accepts-Fits method path host route = (to, from)
  where
    of_methods :
        (methods : Option (List Text))
        → (matches_method methods method ≡ true) ↔ MethodFits methods method
    of_methods none = (λ h. tt, λ h. refl)
    of_methods (some ms) = includes-Fits ms method

    to : accepts method path host route ≡ true → Fits method path host route
    to h = (
      (of_methods route.match_on.methods).0 (ground arith),
      (matches_path-Fits route.match_on.path path).0 (ground arith),
      (matches_host-Fits route.match_on.host host).0 (ground arith),
    )

    from : Fits method path host route → accepts method path host route ≡ true
    from (m, p, h) =
        rw
          (
            (of_methods route.match_on.methods).1 m,
            (matches_path-Fits route.match_on.path path).1 p,
            (matches_host-Fits route.match_on.host host).1 h,
          )
          refl
