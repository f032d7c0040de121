-- ===== src/Routing/Rewrite.antt =====
-- What becomes of the URL of a request on its way upstream.
use apigateaway.Common.{
  eq_of_test, zero, ℕ, suc, ◌≡◌, refl, ap, sym, ◌∙◌, inl, inr, true, false, Option, none, some, [],
  ◌∷◌, ◌==◌, arith, Bool-cases, Text, lit, starts_with, length, drop, All,
}
use apigateaway.Routing.{split_url, with_slash, strip_path, with_query, rewrite_path}

-- No `?`.
abbrev pub IsMarkless : Text → Type 0
IsMarkless = All (λ c. (c == b'?') ≡ false)

pub split_url-IsMarkless : (u : Text) → IsMarkless (split_url u).0
unfolding split_url
split_url-IsMarkless [] = tt
split_url-IsMarkless (c ∷ s) = elim (Bool-cases (c == b'?')) [
  | inl e ↦ rw e tt
  | inr e ↦ rw e (e, split_url-IsMarkless s)
]

pub split_url-with_query :
    (path : Text) (query : Option Text)
    → IsMarkless path
    → split_url (with_query path query) ≡ (path, query)
unfolding split_url
split_url-with_query [] none h = refl
split_url-with_query [] (some query) h = refl
split_url-with_query (c ∷ s) none (e, h) = rw (e, split_url-with_query s none h)
split_url-with_query (c ∷ s) (some query) (e, h) = rw (e, split_url-with_query s (some query) h)

cons-with_query :
    (c : ℕ) (path : Text) (query : Option Text)
    → with_query (c ∷ path) query ≡ c ∷ with_query path query
cons-with_query c path none = refl
cons-with_query c path (some query) = refl

with_query-split_url : (u : Text) → with_query (split_url u).0 (split_url u).1 ≡ u
unfolding split_url
with_query-split_url [] = refl
with_query-split_url (c ∷ s) = elim (Bool-cases (c == b'?')) [
  | inl e ↦ rw e (ap (λ d. d ∷ s) (sym (eq_of_test c b'?' e)))
  | inr e ↦
      rw e (cons-with_query c (split_url s).0 (split_url s).1 ∙ ap (◌∷◌ c) (with_query-split_url s))
]

-- Without a prefix to strip, a URL goes upstream as it came.
rewrite_path-none : (url : Text) → rewrite_path url none ≡ url
unfolding rewrite_path
rewrite_path-none url = with_query-split_url url

drop-IsMarkless : (n : ℕ) (s : Text) → IsMarkless s → IsMarkless (drop n s)
drop-IsMarkless zero s h = h
drop-IsMarkless (suc n) [] h = tt
drop-IsMarkless (suc n) (c ∷ s) (e, h) = drop-IsMarkless n s h

with_slash-IsMarkless : (s : Text) → IsMarkless s → IsMarkless (with_slash s)
with_slash-IsMarkless s h = elim (Bool-cases (starts_with s (lit "/"))) [
  | inl e ↦ rw e h
  | inr e ↦ rw e (refl, h)
]

strip_path-IsMarkless : (p : Option Text) (s : Text) → IsMarkless s → IsMarkless (strip_path p s)
strip_path-IsMarkless none s h = h
strip_path-IsMarkless (some []) s h = h
strip_path-IsMarkless (some (c ∷ p)) s h = elim (Bool-cases (starts_with s (c ∷ p))) [
  | inl e ↦
      rw e (with_slash-IsMarkless (drop (length (c ∷ p)) s) (drop-IsMarkless (length (c ∷ p)) s h))
  | inr e ↦ rw e h
]

-- Stripping a prefix acts on the path alone: the query string goes upstream as it came.
split_url-rewrite_path :
    (url : Text) (strip_prefix : Option Text)
    → split_url (rewrite_path url strip_prefix)
      ≡ (strip_path strip_prefix (split_url url).0, (split_url url).1)
unfolding rewrite_path
split_url-rewrite_path url strip_prefix =
    split_url-with_query (strip_path strip_prefix (split_url url).0) (split_url url).1
      (strip_path-IsMarkless strip_prefix (split_url url).0 (split_url-IsMarkless url))

starts_with-with_slash : (s : Text) → starts_with (with_slash s) (lit "/") ≡ true
starts_with-with_slash s = elim (Bool-cases (starts_with s (lit "/"))) [
  | inl e ↦ rw e e
  | inr e ↦ rw e
]

starts_with-with_query :
    (s : Text) (q : Option Text)
    → starts_with s (lit "/") ≡ true
    → starts_with (with_query s q) (lit "/") ≡ true
starts_with-with_query [] q h = cc
starts_with-with_query (c ∷ s) none h = h
starts_with-with_query (c ∷ s) (some q) h = ground arith

-- A URL whose path starts with `/` goes upstream with a path that does.
starts_with-rewrite_path :
    (url : Text) (strip_prefix : Option Text)
    → starts_with (split_url url).0 (lit "/") ≡ true
    → starts_with (rewrite_path url strip_prefix) (lit "/") ≡ true
unfolding rewrite_path
starts_with-rewrite_path url p h =
    starts_with-with_query (strip_path p (split_url url).0) (split_url url).1 (strip p)
  where
    strip : (p : Option Text) → starts_with (strip_path p (split_url url).0) (lit "/") ≡ true
    strip none = h
    strip (some []) = h
    strip (some (c ∷ p)) = elim (Bool-cases (starts_with (split_url url).0 (c ∷ p))) [
      | inl e ↦ rw e (starts_with-with_slash (drop (length (c ∷ p)) (split_url url).0))
      | inr e ↦ rw e h
    ]
