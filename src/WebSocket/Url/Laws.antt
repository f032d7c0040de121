-- ===== src/WebSocket/Url/Laws.antt =====
-- No token survives the stripping of a URL, and only the mask survives its redaction.
use apigateaway.Common.{
  ◌⊎◌, ℕ, ◌≡◌, refl, ap, ◌∙◌, Bool, Option, none, some, List, [], ◌∷◌, ◌++◌, map, ◌==◌, Text, lit,
  text_eq, join, split, split_head, split_tail, split_free, split-append, IsFree, keep, All, arith,
  Bool-cases, Option-cases, inl, inr,
}
use apigateaway.Routing.{split_url}
use apigateaway.Routing.Rewrite.{IsMarkless, split_url-with_query, split_url-IsMarkless}
use apigateaway.WebSocket.Url.{
  is_not_empty, after_equals, key_of, value_of, token_in, extract_query_token, is_kept, with_pairs,
  strip_query_param, redacted, mask, redact_url,
}

-- Texts with no separator are the pieces of what they are joined to.
split-join :
    (c : ℕ) (t : Text) (ts : List Text)
    → All (IsFree c) (t ∷ ts)
    → split c (join (c ∷ []) (t ∷ ts)) ≡ t ∷ ts
split-join c t [] (h, _) = split_free c t h
split-join c t (u ∷ ts) (h, hs) =
    split-append c t (join (c ∷ []) (u ∷ ts)) h ∙ ap (◌∷◌ t) (split-join c u ts hs)

-- The pieces of a text have no separator.
split-All-IsFree : (c : ℕ) (s : Text) → All (IsFree c) (split c s)
split-All-IsFree c [] = (tt, tt)
split-All-IsFree c (d ∷ s) =
    let (head, tail) = split-All-IsFree c s in
    elim (Bool-cases (d == c)) [ inl e ↦ rw e (tt, (head, tail)) | inr e ↦ rw e ((e, head), tail) ]

IsFree-head : (c d : ℕ) (s t : Text) → IsFree c s → IsFree c t → IsFree c (split_head d s ++ t)
IsFree-head c d [] t h k = k
IsFree-head c d (x ∷ s) t (e, h) k = elim (Bool-cases (x == d)) [
  | inl f ↦ rw f k
  | inr f ↦ rw f (e, IsFree-head c d s t h k)
]

keep-All : (P : Text → Type 0) (p : Text → Bool) (ts : List Text) → All P ts → All P (keep p ts)
keep-All P p [] h = tt
keep-All P p (t ∷ ts) (q, h) = elim (Bool-cases (p t)) [
  | inl e ↦ rw e (q, keep-All P p ts h)
  | inr e ↦ rw e (keep-All P p ts h)
]

module _ (decode : Text → Text) where
  token_in-keep :
      (name : Text) (pairs : List Text)
      → token_in decode name (keep (is_kept decode name) pairs) ≡ none
  unfolding token_in
  token_in-keep name [] = refl
  token_in-keep name (pair ∷ pairs) = ground (arith, token_in-keep name pairs)

  extract-with_pairs :
      (name path : Text) (pairs : List Text)
      → IsMarkless path
      → All (IsFree b'&') pairs
      → token_in decode name pairs ≡ none
      → extract_query_token decode (with_pairs path pairs) name ≡ none
  unfolding extract_query_token
  extract-with_pairs name path [] h free e =
      rw (split_url-with_query path none h, extract_query_token) refl
  extract-with_pairs name path (pair ∷ pairs) h free e =
      rw (split_url-with_query path (some (join (lit "&") (pair ∷ pairs))) h, extract_query_token)
        (rw (split-join b'&' pair pairs free) e)

  extract_none :
      (url name : Text) → (split_url url).1 ≡ none → extract_query_token decode url name ≡ none
  unfolding extract_query_token
  extract_none url name e = rw (e, extract_query_token)

  -- After a parameter is stripped from a URL, no token is found under its name, whatever the
  -- decoding of the keys makes of them.
  pub extract_query_token-strip_query_param :
      (url name : Text) → extract_query_token decode (strip_query_param decode url name) name ≡ none
  unfolding strip_query_param
  extract_query_token-strip_query_param url name = elim (Option-cases (split_url url).1) [
    | inl e ↦ rw (e, strip_query_param) (extract_none url name e)
    | inr (query, e) ↦
        rw (e, strip_query_param)
          (extract-with_pairs name (split_url url).0 (keep (is_kept decode name) (split b'&' query))
            (split_url-IsMarkless url)
            (keep-All (IsFree b'&') (is_kept decode name) (split b'&' query)
              (split-All-IsFree b'&' query))
            (token_in-keep name (split b'&' query)))
  ]

  -- Nothing, or the mask.
  abbrev pub IsMasked : Option Text → Type 0
  IsMasked found = (found ≡ none) ⊎ (found ≡ some (decode redacted))

  value-mask :
      (s : Text) → after_equals (split_head b'=' s ++ (lit "=" ++ redacted)) ≡ some redacted
  value-mask [] = refl
  value-mask (c ∷ s) = elim (Bool-cases (c == b'=')) [
    | inl e ↦ rw e
    | inr e ↦ rw (e, after_equals) (rw e (value-mask s))
  ]

  head-mask : (s t : Text) → split_head b'=' (split_head b'=' s ++ (b'=' ∷ t)) ≡ split_head b'=' s
  head-mask [] t = refl
  head-mask (c ∷ s) t = elim (Bool-cases (c == b'=')) [
    | inl e ↦ rw e
    | inr e ↦ rw e (rw e (ap (◌∷◌ c) (head-mask s t)))
  ]

  token_in-mask :
      (name : Text) (pairs : List Text)
      → IsMasked (token_in decode name (map (mask decode name) pairs))
  unfolding token_in key_of
  token_in-mask name [] = inl refl
  token_in-mask name (pair ∷ pairs) = elim (Bool-cases (text_eq (key_of decode pair) name)) [
    | inl e ↦
        let rest = token_in-mask name pairs in
        elim (Bool-cases (is_not_empty (decode redacted))) [
          | inl full ↦
              rw (e, token_in, head-mask pair redacted, e, value-mask pair, value_of, full)
                (inr refl)
          | inr bare ↦
              rw (e, token_in, head-mask pair redacted, e, value-mask pair, value_of, bare) rest
        ]
    | inr e ↦ rw (e, token_in) (rw e (token_in-mask name pairs))
  ]

  extract-joined :
      (name path pair : Text) (pairs : List Text)
      → IsMarkless path
      → All (IsFree b'&') (pair ∷ pairs)
      → extract_query_token decode (path ++ (lit "?" ++ join (lit "&") (pair ∷ pairs))) name
        ≡ token_in decode name (pair ∷ pairs)
  unfolding extract_query_token
  extract-joined name path pair pairs h free =
      rw (split_url-with_query path (some (join (lit "&") (pair ∷ pairs))) h, extract_query_token)
        (rw (split-join b'&' pair pairs free) refl)

  mask-All :
      (name : Text) (pairs : List Text)
      → All (IsFree b'&') pairs
      → All (IsFree b'&') (map (mask decode name) pairs)
  mask-All name [] h = tt
  mask-All name (pair ∷ pairs) (e, h) = elim (Bool-cases (text_eq (key_of decode pair) name)) [
    | inl f ↦ rw f (
      IsFree-head b'&' b'=' pair (lit "=" ++ redacted) e (
        refl,
        (refl, (refl, (refl, (refl, (refl, (refl, (refl, (refl, (refl, (refl, tt)))))))))),
      ),
      mask-All name pairs h,
    )
    | inr f ↦ rw f (e, mask-All name pairs h)
  ]

  -- A redacted URL gives away, under the redacted name, no token but the mask.
  extract_query_token-redact_url :
      (url name : Text) → IsMasked (extract_query_token decode (redact_url decode url name) name)
  unfolding redact_url
  extract_query_token-redact_url url name = elim (Option-cases (split_url url).1) [
    | inl e ↦ rw (e, redact_url) (inl (extract_none url name e))
    | inr (query, e) ↦
        rw (e, redact_url)
          (rw
            (extract-joined name (split_url url).0 (mask decode name (split_head b'&' query))
              (map (mask decode name) (split_tail b'&' query)) (split_url-IsMarkless url)
              (mask-All name (split b'&' query) (split-All-IsFree b'&' query)))
            (token_in-mask name (split b'&' query)))
  ]
