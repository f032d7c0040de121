-- ===== src/Proxy/Headers.antt =====
-- packages/gateway/src/proxy/forward.ts and transform.ts: the headers that go upstream and come back.
-- A header object is a map whose keys Node has put in lower case.
pub mod Laws
use apigateaway.Common.{
  ℕ, Bool, true, false, ◌||◌, Option, none, some, List, [], ◌∷◌, ◌++◌, map, if◌then◌else◌, Text,
  lit, text_eq, to_lower, join, includes, Dict, lookup, insert, delete,
}
use apigateaway.Config.{RequestTransform}

-- `string | string[]`
pub data HeaderValue : Type 0 where
  one : Text → HeaderValue
  many : List Text → HeaderValue

-- A value may be `undefined`.
abbrev pub IncomingHeaders : Type 0
IncomingHeaders = Dict (Option HeaderValue)

abbrev pub Headers : Type 0
Headers = Dict HeaderValue

abbrev pub hop_by_hop_headers : List Text
hop_by_hop_headers =
    lit "connection"
    ∷ lit "keep-alive"
    ∷ lit "proxy-authenticate"
    ∷ lit "proxy-authorization"
    ∷ lit "te"
    ∷ lit "trailer"
    ∷ lit "transfer-encoding"
    ∷ lit "upgrade"
    ∷ []

unfoldable pub is_hop_by_hop : Text → Bool
is_hop_by_hop key = includes hop_by_hop_headers key

-- The copying loop of both functions: what is `undefined` or skipped does not reach the result.
unfoldable pub copy_headers : (Text → Bool) → IncomingHeaders → Headers → Headers
copy_headers skipped [] result = result
copy_headers skipped ((key, none) ∷ rest) result = copy_headers skipped rest result
copy_headers skipped ((key, some value) ∷ rest) result =
    copy_headers skipped rest (if skipped key then result else insert key value result)

unfoldable pub strip_hop_by_hop : IncomingHeaders → Headers
strip_hop_by_hop headers = copy_headers is_hop_by_hop headers []

abbrev pub skips_outgoing : Text → Bool
skips_outgoing key = text_eq key (lit "host") || is_hop_by_hop key

-- `headers[name]`, where a missing key and `undefined` are one
abbrev pub header : Text → IncomingHeaders → Option HeaderValue
header name headers = elim (lookup name headers) [ none ↦ none | some v ↦ v ]

-- The value of X-Forwarded-For: the client's address behind what is there, unless that is empty.
abbrev pub forwarded_for : Option HeaderValue → Text → Text
forwarded_for none client_ip = client_ip
forwarded_for (some (one [])) client_ip = client_ip
forwarded_for (some (one (c ∷ s))) client_ip = (c ∷ s) ++ (lit ", " ++ client_ip)
forwarded_for (some (many values)) client_ip = join (lit ", ") values ++ (lit ", " ++ client_ip)

-- `if (typeof opts.headers['host'] === 'string')`
abbrev pub with_forwarded_host : Option HeaderValue → Headers → Headers
with_forwarded_host (some (one host)) result = insert (lit "x-forwarded-host") (one host) result
with_forwarded_host (some (many hosts)) result = result
with_forwarded_host none result = result

unfoldable pub build_outgoing_headers : IncomingHeaders → Text → Text → Headers
build_outgoing_headers headers client_ip request_id =
    let copied = copy_headers skips_outgoing headers [] in
    let for = forwarded_for (header (lit "x-forwarded-for") headers) client_ip in
    let with_for = insert (lit "x-forwarded-for") (one for) copied in
    let with_proto = insert (lit "x-forwarded-proto") (one (lit "http")) with_for in
    let with_id = insert (lit "x-request-id") (one request_id) with_proto in
    with_forwarded_host (header (lit "host") headers) with_id

unfoldable pub remove_all : List Text → IncomingHeaders → IncomingHeaders
remove_all [] headers = headers
remove_all (name ∷ names) headers = remove_all names (delete (to_lower name) headers)

unfoldable pub set_all : Dict Text → IncomingHeaders → IncomingHeaders
set_all [] headers = headers
set_all ((name, value) ∷ more) headers =
    set_all more (insert (to_lower name) (some (one value)) headers)

-- `route.transform?.request`
unfoldable pub apply_request_transform : Option RequestTransform → IncomingHeaders → IncomingHeaders
apply_request_transform none headers = headers
apply_request_transform (some t) headers =
    set_all t.set_headers (remove_all t.remove_headers headers)
