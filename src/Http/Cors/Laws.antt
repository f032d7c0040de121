-- ===== src/Http/Cors/Laws.antt =====
-- The CORS headers of a response.
use apigateaway.Common.{
  ◌≡◌, refl, Bool, true, false, not, ◌&&◌, Option, none, some, List, [], ◌∷◌, ◌++◌, if◌then◌else◌,
  Text, lit, text_eq, includes, join, Bool-cases, inl, inr,
}
use apigateaway.Config.{CorsConfig}
use apigateaway.Http.{ReplyCall, header_set, sent, ReplyValue, text_value, number_value}
use apigateaway.Http.Cors.{exposed_calls, apply_cors_response_headers, apply_preflight_headers}

-- What the first call for a header sets it to.
abbrev pub value_set : Text → List ReplyCall → Option ReplyValue
value_set name [] = none
value_set name (header_set key value ∷ calls) =
    if text_eq key name then some value else value_set name calls
value_set name (sent status error retry_after ∷ calls) = value_set name calls

-- Credentials are allowed in the answer to a preflight exactly if the route allows them, and then
-- the origin allowed is the one that asked, never `*` in its place.
apply_preflight_headers_credentials :
    (cors : CorsConfig) (origin : Text)
    → let calls = apply_preflight_headers cors origin in
      (value_set (lit "Access-Control-Allow-Credentials") calls
        ≡ (if cors.credentials then some (text_value (lit "true")) else none))
      × (value_set (lit "Access-Control-Allow-Origin") calls
          ≡ some (
              text_value (
                if not cors.credentials && includes cors.origins (lit "*")
                then lit "*"
                else origin)))
unfolding apply_preflight_headers apply_cors_response_headers
apply_preflight_headers_credentials cors origin = elim (Bool-cases cors.credentials) [
  | inl e ↦ rw e (refl, by_wildcard true (includes cors.origins (lit "*")))
  | inr e ↦
      rw e (none_exposed cors.exposed_headers, by_wildcard false (includes cors.origins (lit "*")))
]
  where
    by_wildcard :
        (credentials wild : Bool)
        → some (text_value (if wild && not credentials then lit "*" else origin))
          ≡ some (text_value (if not credentials && wild then lit "*" else origin))
    by_wildcard true true = refl
    by_wildcard true false = refl
    by_wildcard false true = refl
    by_wildcard false false = refl

    none_exposed :
        (names : List Text)
        → value_set (lit "Access-Control-Allow-Credentials") (
            exposed_calls names
            ++ header_set
                (lit "Access-Control-Allow-Methods")
                (text_value (join (lit ", ") cors.methods))
              ∷ header_set
                  (lit "Access-Control-Allow-Headers")
                  (text_value (join (lit ", ") cors.allowed_headers))
              ∷ header_set (lit "Access-Control-Max-Age") (number_value cors.max_age_sec)
              ∷ [])
          ≡ none
    none_exposed [] = refl
    none_exposed (n ∷ names) = refl
