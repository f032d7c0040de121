-- ===== src/Http.antt =====
-- What the request handlers share: the calls they make on the reply, and
-- packages/gateway/src/http/bearerToken.ts.
pub mod Laws
pub mod Limits
pub mod Cors
use apigateaway.Common.{
  ℕ, suc, Bool, true, false, ◌&&◌, ◌||◌, Option, none, some, List, [], ◌∷◌, if◌then◌else◌, Text,
  lit, text_eq, to_lower, split_head, split_tail,
}

pub data ReplyValue : Type 0 where
  text_value : Text → ReplyValue
  number_value : ℕ → ReplyValue

-- A call of a handler on Fastify's reply: `reply.header(name, value)`, and
-- `reply.code(status).send({ error, retryAfter, ... })`. The sentence for a human reader and the
-- request's id are left out of the body.
pub data ReplyCall : Type 0 where
  header_set : Text → ReplyValue → ReplyCall
  sent : ℕ → Text → Option ℕ → ReplyCall

abbrev pub is_sent : ReplyCall → Bool
is_sent (header_set name value) = false
is_sent (sent status error retry_after) = true

-- How often a reply is sent.
abbrev pub sends : List ReplyCall → ℕ
sends [] = 0
sends (header_set name value ∷ calls) = sends calls
sends (sent status error retry_after ∷ calls) = suc (sends calls)

abbrev pub is_full : Text → Bool
is_full [] = false
is_full (c ∷ s) = true

-- `[scheme, token] = header.split(' ')`; the token is none if there is no space.
abbrev pub token_of : Text → List Text → Option Text
token_of scheme [] = none
token_of scheme (token ∷ rest) =
    if text_eq (to_lower scheme) (lit "bearer") && is_full token then some token else none

unfoldable pub extract_bearer_token : Option Text → Option Text
extract_bearer_token none = none
extract_bearer_token (some header) =
    if is_full header then token_of (split_head b' ' header) (split_tail b' ' header) else none
