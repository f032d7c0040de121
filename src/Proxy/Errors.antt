-- ===== src/Proxy/Errors.antt =====
-- packages/gateway/src/server.ts: `sendProxyError`, on the exceptions of proxy/forward.ts and
-- proxy/retry.ts.
use apigateaway.Common.{Option, none, some, List, [], ◌∷◌, Text, lit}
use apigateaway.Http.{ReplyCall, sent}
use apigateaway.Proxy.Retry.{ForwardError, body_too_large, upstream_timeout, other}

-- The exception of an attempt, or NoHealthyTargetError.
pub data ProxyError : Type 0 where
  attempt_failed : ForwardError → ProxyError
  no_target : ProxyError

-- The answer, and the reason that `recordUpstreamError` is called with.
unfoldable pub send_proxy_error : ProxyError → List ReplyCall × Option Text
send_proxy_error (attempt_failed body_too_large) =
    (sent 413 (lit "payload_too_large") none ∷ [], none)
send_proxy_error (attempt_failed upstream_timeout) =
    (sent 504 (lit "upstream_timeout") none ∷ [], some (lit "timeout"))
send_proxy_error no_target =
    (sent 503 (lit "service_unavailable") none ∷ [], some (lit "no_healthy_target"))
send_proxy_error (attempt_failed other) =
    (sent 502 (lit "bad_gateway") none ∷ [], some (lit "connection"))
