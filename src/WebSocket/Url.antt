-- ===== src/WebSocket/Url.antt =====
-- packages/gateway/src/websocket/url.ts: the access token in a URL. `safeDecode`, which calls
-- `decodeURIComponent` and gives back what that refuses, is the parameter `decode`.
pub mod Laws
use apigateaway.Common.{
  Bool, true, false, not, ◌&&◌, Option, none, some, List, [], ◌∷◌, ◌++◌, map, if◌then◌else◌, ◌==◌,
  Text, lit, text_eq, join, split, split_head, keep, is_some,
}
use apigateaway.Routing.{split_url}

abbrev pub access_token_param : Text
access_token_param = lit "access_token"

-- What stands behind the first `=`, if there is one.
abbrev pub after_equals : Text → Option Text
after_equals [] = none
after_equals (c ∷ s) = if c == b'=' then some s else after_equals s

abbrev pub is_not_empty : Text → Bool
is_not_empty [] = false
is_not_empty (c ∷ s) = true

abbrev pub redacted : Text
redacted = lit "[redacted]"

-- The kept pairs, behind the path.
abbrev pub with_pairs : Text → List Text → Text
with_pairs path [] = path
with_pairs path (pair ∷ pairs) = path ++ (lit "?" ++ join (lit "&") (pair ∷ pairs))

module _ (decode : Text → Text) where
  -- `slice(0, eq)` is what stands before the first `=`, or the whole pair.
  unfoldable pub key_of : Text → Text
  key_of pair = decode (split_head b'=' pair)

  abbrev pub value_of : Option Text → Text
  value_of none = []
  value_of (some value) = decode value

  -- The loop over the pairs.
  unfoldable pub token_in : Text → List Text → Option Text
  token_in name [] = none
  token_in name (pair ∷ pairs) =
      let value = value_of (after_equals pair) in
      let rest = token_in name pairs in
      if text_eq (key_of pair) name then (if is_not_empty value then some value else rest) else rest

  unfoldable pub extract_query_token : Text → Text → Option Text
  extract_query_token url name = elim (split_url url).1 [
    | none ↦ none
    | some query ↦ token_in name (split b'&' query)
  ]

  abbrev pub is_kept : Text → Text → Bool
  is_kept name pair = is_not_empty pair && not (text_eq (key_of pair) name)

  unfoldable pub strip_query_param : Text → Text → Text
  strip_query_param url name = elim (split_url url).1 [
    | none ↦ url
    | some query ↦ with_pairs (split_url url).0 (keep (is_kept name) (split b'&' query))
  ]

  abbrev pub mask : Text → Text → Text
  mask name pair =
      if text_eq (key_of pair) name then split_head b'=' pair ++ (lit "=" ++ redacted) else pair

  unfoldable pub redact_url : Text → Text → Text
  redact_url url name = elim (split_url url).1 [
    | none ↦ url
    | some query ↦
        (split_url url).0 ++ (lit "?" ++ join (lit "&") (map (mask name) (split b'&' query)))
  ]
