-- ===== src/WebSocket/Handshake.antt =====
-- packages/gateway/src/websocket/upgrade.ts: which requests are WebSocket handshakes, and what is
-- wrong with one. The listener, which gives the request to the router, is I/O.
pub mod Laws
use apigateaway.Common.{
  ℕ, Bool, true, false, not, ◌&&◌, ◌||◌, Option, none, some, List, [], ◌∷◌, map, if◌then◌else◌,
  ◌==◌, ◌≤?◌, Text, lit, text_eq, to_lower, trim, split, any, all, length, drop, take, lookup,
}
use apigateaway.Proxy.Headers.{HeaderValue, one, many, IncomingHeaders, header}

-- `typeof value === 'string'`, and a test of it
abbrev pub text_passes : (Text → Bool) → Option HeaderValue → Bool
text_passes test none = false
text_passes test (some (one value)) = test value
text_passes test (some (many values)) = false

abbrev pub lists_upgrade : Text → Bool
lists_upgrade connection =
    any (λ token. text_eq (trim token) (lit "upgrade")) (split b',' (to_lower connection))

unfoldable pub is_websocket_handshake : IncomingHeaders → Bool
is_websocket_handshake headers =
    text_passes (λ upgrade. text_eq (to_lower upgrade) (lit "websocket"))
      (header (lit "upgrade") headers)
    && text_passes lists_upgrade (header (lit "connection") headers)

pub data HandshakeProblem : Type 0 where
  not_get unsupported_version invalid_key : HandshakeProblem

-- `[+/0-9A-Za-z]`
abbrev pub is_base64 : ℕ → Bool
is_base64 c =
    c == b'+'
    || c == b'/'
    || ((b'0' ≤? c) && (c ≤? b'9'))
    || ((b'A' ≤? c) && (c ≤? b'Z'))
    || ((b'a' ≤? c) && (c ≤? b'z'))

-- 22 of these, then `==`.
abbrev pub is_key : Text → Bool
is_key key = length key == 24 && all is_base64 (take 22 key) && text_eq (drop 22 key) (lit "==")

unfoldable pub handshake_problem : Text → IncomingHeaders → Option HandshakeProblem
handshake_problem method headers =
    if not (text_eq method (lit "GET"))
    then some not_get
    else if not (
        text_passes (λ version. text_eq version (lit "13"))
          (header (lit "sec-websocket-version") headers))
    then some unsupported_version
    else if not (text_passes is_key (header (lit "sec-websocket-key") headers))
    then some invalid_key
    else none
