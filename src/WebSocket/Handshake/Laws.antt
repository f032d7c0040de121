-- ===== src/WebSocket/Handshake/Laws.antt =====
-- A handshake without a problem.
use apigateaway.Common.{
  ◌≡◌, refl, Bool, true, false, not, ◌&&◌, none, some, Text, lit, text_eq, if◌then◌else◌, is_some,
}
use apigateaway.Proxy.Headers.{IncomingHeaders, header}
use apigateaway.WebSocket.Handshake.{
  text_passes, is_key, handshake_problem, not_get, unsupported_version, invalid_key,
}

-- A handshake has no problem exactly if it is a GET request of version 13 with a key.
is_some-handshake_problem :
    (method : Text) (headers : IncomingHeaders)
    → not (is_some (handshake_problem method headers)) ≡ (
        text_eq method (lit "GET")
        && text_passes
            (λ version. text_eq version (lit "13"))
            (header (lit "sec-websocket-version") headers)
        && text_passes is_key (header (lit "sec-websocket-key") headers))
unfolding handshake_problem
is_some-handshake_problem method headers =
    by_tests (text_eq method (lit "GET"))
      (text_passes (λ version. text_eq version (lit "13"))
        (header (lit "sec-websocket-version") headers))
      (text_passes is_key (header (lit "sec-websocket-key") headers))
  where
    by_tests :
        (a b c : Bool)
        → not (
            is_some (
              if not a
              then some not_get
              else if not b
              then some unsupported_version
              else if not c
              then some invalid_key
              else none))
          ≡ (a && b && c)
    by_tests true true true = refl
    by_tests true true false = refl
    by_tests true false c = refl
    by_tests false b c = refl
