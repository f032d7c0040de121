-- ===== src/Gateway/Exchange/Laws.antt =====
-- Which headers of its own the gateway sends upstream.
use apigateaway.Common.{◌≡◌, refl, true, Option, none, some, [], ◌∷◌, Text, lit, ends_with, lookup}
use apigateaway.Config.{RequestTransform}
use apigateaway.Proxy.Headers.{
  HeaderValue, one, many, IncomingHeaders, header, forwarded_for, build_outgoing_headers,
  apply_request_transform,
}
use apigateaway.Proxy.Headers.Laws.{own-build_outgoing_headers}
use apigateaway.Gateway.Exchange.{request_id_of}

-- The id that is sent is the one that the client sent, and a generated one if it sent none.
abbrev pub IsPropagated : Option HeaderValue → Text → Option HeaderValue → Type 0
IsPropagated none generated sent = sent ≡ some (one generated)
IsPropagated (some (one [])) generated sent = sent ≡ some (one generated)
IsPropagated (some (one (c ∷ s))) generated sent = sent ≡ some (one (c ∷ s))
IsPropagated (some (many values)) generated sent = Unit

propagated :
    (headers : IncomingHeaders) (generated : Text) (sent : Option HeaderValue)
    → sent ≡ some (one (request_id_of headers generated))
    → IsPropagated (header (lit "x-request-id") headers) generated sent
unfolding request_id_of
propagated headers generated sent = by_value (header (lit "x-request-id") headers) refl
  where
    by_value :
        (value : Option HeaderValue)
        → header (lit "x-request-id") headers ≡ value
        → sent ≡ some (one (request_id_of headers generated))
        → IsPropagated value generated sent
    by_value none e h = rw (e, request_id_of) at h
    by_value (some (one [])) e h = rw (e, request_id_of) at h
    by_value (some (one (c ∷ s))) e h = rw (e, request_id_of) at h
    by_value (some (many values)) e h = tt

-- Whatever headers a client sends and a route's transform makes of them: upstream X-Request-Id is
-- the id that the client sent, if it sent one that is not empty, and the generated id else, also if
-- the transform changes that header; X-Forwarded-For is one text that ends with the address that
-- Fastify reports for the client, behind what the transformed headers have there; and
-- X-Forwarded-Proto is `http`.
pub outgoing-IsPropagated :
    (transform : Option RequestTransform) (headers : IncomingHeaders) (client_ip generated : Text)
    → let transformed = apply_request_transform transform headers in
      let out = build_outgoing_headers transformed client_ip (request_id_of headers generated) in
      let address = forwarded_for (header (lit "x-forwarded-for") transformed) client_ip in
      IsPropagated (header (lit "x-request-id") headers) generated (lookup (lit "x-request-id") out)
      × (lookup (lit "x-forwarded-for") out ≡ some (one address))
      × (ends_with address client_ip ≡ true)
      × (lookup (lit "x-forwarded-proto") out ≡ some (one (lit "http")))
outgoing-IsPropagated transform headers client_ip generated =
    let (address, tail, id, proto) =
      own-build_outgoing_headers (apply_request_transform transform headers) client_ip
        (request_id_of headers generated) in
    (propagated headers generated _ id, address, tail, proto)
