-- ===== src/Http/Laws.antt =====
-- The bearer token of a header.
use apigateaway.Common.{
  ℕ, ◌≡◌, refl, ◌∙◌, ap, true, ◌&&◌, Option, none, some, List, [], ◌∷◌, ◌++◌, if◌then◌else◌, Text,
  lit, text_eq, to_lower, split, split_free, split-append, IsFree,
}
use apigateaway.Http.{is_full, token_of, extract_bearer_token}

is_full-append : (s : Text) (c : ℕ) (t : Text) → is_full (s ++ (c ∷ t)) ≡ true
is_full-append [] c t = refl
is_full-append (d ∷ s) c t = refl

token_of_pieces : List Text → Option Text
token_of_pieces [] = none
token_of_pieces (scheme ∷ rest) = token_of scheme rest

-- A token is read from `scheme token` exactly if the scheme is bearer, in any case, and the token
-- is not empty, where neither has a space in it.
extract_bearer_token_lem :
    (scheme token : Text)
    → IsFree b' ' scheme
    → IsFree b' ' token
    → extract_bearer_token (some (scheme ++ (lit " " ++ token)))
      ≡ (if text_eq (to_lower scheme) (lit "bearer") && is_full token then some token else none)
unfolding extract_bearer_token token_of_pieces
extract_bearer_token_lem scheme token h k =
    let pieces : split b' ' (scheme ++ (lit " " ++ token)) ≡ scheme ∷ token ∷ [] =
      split-append b' ' scheme token h ∙ ap (◌∷◌ scheme) (split_free b' ' token k) in
    rw (is_full-append scheme b' ' token) (ap token_of_pieces pieces)
