-- ===== src/Http/Cors.antt =====
-- packages/gateway/src/cors/index.ts
pub mod Laws
use apigateaway.Common.{
  ℕ, Bool, true, false, not, ◌&&◌, ◌||◌, List, [], ◌∷◌, ◌++◌, if◌then◌else◌, Text, lit, includes,
  join,
}
use apigateaway.Config.{CorsConfig}
use apigateaway.Http.{ReplyCall, header_set, text_value, number_value}

unfoldable pub is_origin_allowed : CorsConfig → Text → Bool
is_origin_allowed cors origin = includes cors.origins (lit "*") || includes cors.origins origin

abbrev pub allow_origin_value : CorsConfig → Text → Text
allow_origin_value cors origin =
    if includes cors.origins (lit "*") && not cors.credentials then lit "*" else origin

abbrev pub exposed_calls : List Text → List ReplyCall
exposed_calls [] = []
exposed_calls (name ∷ names) =
    header_set (lit "Access-Control-Expose-Headers") (text_value (join (lit ", ") (name ∷ names)))
    ∷ []

unfoldable pub apply_cors_response_headers : CorsConfig → Text → List ReplyCall
apply_cors_response_headers cors origin =
    header_set (lit "Access-Control-Allow-Origin") (text_value (allow_origin_value cors origin))
    ∷ header_set (lit "Vary") (text_value (lit "Origin"))
    ∷ ((if cors.credentials
          then header_set (lit "Access-Control-Allow-Credentials") (text_value (lit "true")) ∷ []
          else [])
        ++ exposed_calls cors.exposed_headers)

unfoldable pub apply_preflight_headers : CorsConfig → Text → List ReplyCall
apply_preflight_headers cors origin =
    apply_cors_response_headers cors origin
    ++ header_set (lit "Access-Control-Allow-Methods") (text_value (join (lit ", ") cors.methods))
      ∷ header_set (lit "Access-Control-Allow-Headers")
          (text_value (join (lit ", ") cors.allowed_headers))
      ∷ header_set (lit "Access-Control-Max-Age") (number_value cors.max_age_sec)
      ∷ []
