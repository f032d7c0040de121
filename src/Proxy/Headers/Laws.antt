-- ===== src/Proxy/Headers/Laws.antt =====
-- Which headers go upstream and come back, and with which values.
use apigateaway.Common.{
  ◌≡◌, refl, ◌∙◌, Bool, true, false, Option, none, some, List, [], ◌∷◌, if◌then◌else◌, Text, lit,
  text_eq, text_eq_iff, join, ends_with, ends_with-append, ends_with-append_append, Dict, lookup,
  insert, lookup-insert, lookup-insert_other, lookup-insert_self, arith, includes,
}
use apigateaway.Proxy.Headers.{
  HeaderValue, one, many, IncomingHeaders, Headers, is_hop_by_hop, copy_headers, strip_hop_by_hop,
  skips_outgoing, header, forwarded_for, with_forwarded_host, build_outgoing_headers,
}

-- The keys of an object differ.
abbrev pub IsObject {ℓ} : {V : Type ℓ} → Dict V → Type ℓ
IsObject [] = Unit
IsObject ((key, value) ∷ rest) = (lookup key rest ≡ none) × IsObject rest

abbrev pub prefer : Option HeaderValue → Option HeaderValue → Option HeaderValue
prefer none b = b
prefer (some a) b = some a

prefer-none : (a : Option HeaderValue) → prefer a none ≡ a
prefer-none none = refl
prefer-none (some a) = refl

lookup-copy_headers :
    (k : Text) (skipped : Text → Bool) (headers : IncomingHeaders) (result : Headers)
    → IsObject headers
    → lookup k (copy_headers skipped headers result)
      ≡ prefer (if skipped k then none else header k headers) (lookup k result)
unfolding copy_headers
lookup-copy_headers k skipped [] result h = ground arith
lookup-copy_headers k skipped ((key, none) ∷ rest) result (fresh, h) =
    ground (arith, lookup-copy_headers k skipped rest result h, text_eq_iff key k, fresh)
lookup-copy_headers k skipped ((key, some value) ∷ rest) result (fresh, h) = ground (
  arith,
  lookup-copy_headers k skipped rest result h,
  lookup-copy_headers k skipped rest (insert key value result) h,
  lookup-insert key k value result,
  text_eq_iff key k,
  fresh,
)

-- The response's headers come back but for the hop-by-hop ones.
lookup-strip_hop_by_hop :
    (k : Text) (headers : IncomingHeaders)
    → IsObject headers
    → lookup k (strip_hop_by_hop headers) ≡ (if is_hop_by_hop k then none else header k headers)
unfolding strip_hop_by_hop
lookup-strip_hop_by_hop k headers h =
    ground (arith, lookup-copy_headers k is_hop_by_hop headers [] h)

-- The names that the gateway sets itself.
abbrev pub own_names : List Text
own_names =
    lit "x-forwarded-for"
    ∷ lit "x-forwarded-proto"
    ∷ lit "x-request-id"
    ∷ lit "x-forwarded-host"
    ∷ []

lookup-with_forwarded_host :
    (k : Text) (host : Option HeaderValue) (result : Headers)
    → text_eq (lit "x-forwarded-host") k ≡ false
    → lookup k (with_forwarded_host host result) ≡ lookup k result
lookup-with_forwarded_host k none result other = refl
lookup-with_forwarded_host k (some (one host)) result other =
    rw (lookup-insert (lit "x-forwarded-host") k (one host) result, other)
lookup-with_forwarded_host k (some (many hosts)) result other = refl

not_own :
    (k : Text)
    → includes own_names k ≡ false
    → (text_eq (lit "x-forwarded-for") k ≡ false)
      × (text_eq (lit "x-forwarded-proto") k ≡ false)
      × (text_eq (lit "x-request-id") k ≡ false)
      × (text_eq (lit "x-forwarded-host") k ≡ false)
not_own k h = ground arith

-- Of the headers that the gateway does not set itself, those that are hop-by-hop or `host` do not go
-- upstream, and all others go as they came.
lookup-build_outgoing_headers :
    (k : Text) (headers : IncomingHeaders) (client_ip request_id : Text)
    → IsObject headers
    → includes own_names k ≡ false
    → lookup k (build_outgoing_headers headers client_ip request_id)
      ≡ (if skips_outgoing k then none else header k headers)
unfolding build_outgoing_headers
lookup-build_outgoing_headers k headers client_ip request_id h other =
    let (for, proto, id, host) = not_own k other in
    let address = forwarded_for (header (lit "x-forwarded-for") headers) client_ip in
    let copied = copy_headers skips_outgoing headers [] in
    let with_for = insert (lit "x-forwarded-for") (one address) copied in
    let with_proto = insert (lit "x-forwarded-proto") (one (lit "http")) with_for in
    lookup-with_forwarded_host k (header (lit "host") headers) _ host
    ∙ lookup-insert_other (lit "x-request-id") k (one request_id) with_proto id
    ∙ lookup-insert_other (lit "x-forwarded-proto") k (one (lit "http")) with_for proto
    ∙ lookup-insert_other (lit "x-forwarded-for") k (one address) copied for
    ∙ lookup-copy_headers k skips_outgoing headers [] h
    ∙ prefer-none _

ends_with-forwarded_for :
    (v : Option HeaderValue) (client_ip : Text)
    → ends_with (forwarded_for v client_ip) client_ip ≡ true
ends_with-forwarded_for none client_ip = ends_with-append [] client_ip
ends_with-forwarded_for (some (one [])) client_ip = ends_with-append [] client_ip
ends_with-forwarded_for (some (one (c ∷ s))) client_ip =
    ends_with-append_append (c ∷ s) (lit ", ") client_ip
ends_with-forwarded_for (some (many values)) client_ip =
    ends_with-append_append (join (lit ", ") values) (lit ", ") client_ip

-- Whatever the headers: upstream X-Forwarded-For is one text that ends with the address given,
-- X-Request-Id is the id given, and X-Forwarded-Proto is `http`.
pub own-build_outgoing_headers :
    (headers : IncomingHeaders) (client_ip request_id : Text)
    → let out = build_outgoing_headers headers client_ip request_id in
      (lookup (lit "x-forwarded-for") out
        ≡ some (one (forwarded_for (header (lit "x-forwarded-for") headers) client_ip)))
      × (ends_with (forwarded_for (header (lit "x-forwarded-for") headers) client_ip) client_ip
          ≡ true)
      × (lookup (lit "x-request-id") out ≡ some (one request_id))
      × (lookup (lit "x-forwarded-proto") out ≡ some (one (lit "http")))
unfolding build_outgoing_headers
own-build_outgoing_headers headers client_ip request_id =
    let address = forwarded_for (header (lit "x-forwarded-for") headers) client_ip in
    let copied = copy_headers skips_outgoing headers [] in
    let with_for = insert (lit "x-forwarded-for") (one address) copied in
    let with_proto = insert (lit "x-forwarded-proto") (one (lit "http")) with_for in
    let host = header (lit "host") headers in
    (
      lookup-with_forwarded_host (lit "x-forwarded-for") host _ refl
          ∙ lookup-insert_other (lit "x-request-id") _ (one request_id) with_proto refl
          ∙ lookup-insert_other (lit "x-forwarded-proto") _ (one (lit "http")) with_for refl
          ∙ lookup-insert_self (lit "x-forwarded-for") (one address) copied,
      ends_with-forwarded_for (header (lit "x-forwarded-for") headers) client_ip,
      lookup-with_forwarded_host (lit "x-request-id") host _ refl
          ∙ lookup-insert_self (lit "x-request-id") (one request_id) with_proto,
      lookup-with_forwarded_host (lit "x-forwarded-proto") host _ refl
          ∙ lookup-insert_other (lit "x-request-id") _ (one request_id) with_proto refl
          ∙ lookup-insert_self (lit "x-forwarded-proto") (one (lit "http")) with_for,
    )
