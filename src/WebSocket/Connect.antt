-- ===== src/WebSocket/Connect.antt =====
-- packages/gateway/src/websocket/proxy.ts: `proxyWebSocket` up to the bridge, and `connectUpstream`.
-- The `ws` client is outside of the repository: what it reports first is an event, and its handshake
-- timeout makes it report one.
pub mod Laws
pub mod Overrun
pub mod Targets
use apigateaway.Common.{
  ℕ, ◌+◌, Bool, true, false, not, ◌&&◌, ◌||◌, Option, none, some, List, [], ◌∷◌, ◌++◌, map,
  if◌then◌else◌, ◌==◌, ◌<?◌, ◌≤?◌, Text, lit, text_eq, starts_with, join, split, trim, includes,
  length, keep,
}
use apigateaway.Config.{RouteConfig, WebSocketConfig}
use apigateaway.Http.{ReplyCall, header_set, sent, text_value}
use apigateaway.Http.Limits.{Chunk}
use apigateaway.Proxy.Headers.{
  HeaderValue, one, many, Headers, IncomingHeaders, header, build_outgoing_headers,
}
use apigateaway.Proxy.Retry.{upstream_timeout, other}
use apigateaway.Proxy.Errors.{ProxyError, attempt_failed, no_target}
use apigateaway.Balancer.{Balancer, pick_target, report_success, report_failure}
use apigateaway.WebSocket.Registry.{TrackedConnection, count_for}

-- `Array.isArray(header) ? header.join(',') : header`, where `undefined` is cut to no protocols
abbrev pub raw_protocols : Option HeaderValue → Text
raw_protocols none = []
raw_protocols (some (one value)) = value
raw_protocols (some (many values)) = join (lit ",") values

abbrev pub is_not_empty : Text → Bool
is_not_empty [] = false
is_not_empty (c ∷ s) = true

-- The test of the empty header is that of its one, empty protocol.
unfoldable pub parse_protocols : Option HeaderValue → List Text
parse_protocols value = keep is_not_empty (map trim (split b',' (raw_protocols value)))

unfoldable pub is_sendable_close_code : ℕ → Bool
is_sendable_close_code code =
    ((1000 ≤? code)
      && (code ≤? 1014)
      && not (code == 1004)
      && not (code == 1005)
      && not (code == 1006))
    || ((3000 ≤? code) && (code ≤? 4999))

-- The headers that `ws` makes itself.
abbrev pub is_handshake_header : Text → Bool
is_handshake_header name =
    starts_with name (lit "sec-websocket-")
    || text_eq name (lit "upgrade")
    || text_eq name (lit "connection")
    || text_eq name (lit "origin")

abbrev pub one_value : HeaderValue → Text
one_value (one value) = value
one_value (many values) = join (lit ", ") values

-- The loop over the outgoing headers.
unfoldable pub handshake_headers : Headers → List (Text × Text)
handshake_headers [] = []
handshake_headers ((name, value) ∷ rest) =
    let later = handshake_headers rest in
    if is_handshake_header name then later else (name, one_value value) ∷ later

-- What the `ws` client is made with.
pub record HandshakeRequest : Type 0 where
  pub target : Text
  pub path : Text
  pub headers : List (Text × Text)
  pub protocols : List Text
  pub origin : Option Text
  pub handshake_timeout : ℕ
  pub max_payload : ℕ

-- The first thing to happen: the client goes away, 'open' with the sub-protocol of the response,
-- 'unexpected-response' with its chunks and whether it ends without an error, or 'error', which may
-- say that the handshake timed out.
pub data HandshakeEvent : Type 0 where
  client_gone : HandshakeEvent
  opened : Option Text → HandshakeEvent
  unexpected_response : Option ℕ → IncomingHeaders → List Chunk → Bool → HandshakeEvent
  errored : Bool → HandshakeEvent

abbrev pub rejection_body_limit : ℕ
rejection_body_limit = 65536

-- The listener of 'data': `size` is what it has counted.
unfoldable pub gather : ℕ → List Chunk → List ℕ
gather size [] = []
gather size (chunk ∷ chunks) =
    let full = rejection_body_limit ≤? size in
    let kept : List ℕ = if full then [] else chunk in
    kept ++ gather (if full then size else size + length chunk) chunks

-- How the promise of `connectUpstream` settles.
pub data Connected : Type 0 where
  connected : Option Text → Connected
  rejected : ℕ → IncomingHeaders → List ℕ → Connected
  client_aborted : Connected
  failed_with : ProxyError → Connected

abbrev pub protocol_passes : List Text → Option Text → Bool
protocol_passes protocols none = true
protocol_passes protocols (some selected) = includes protocols selected

abbrev pub or_502 : Option ℕ → ℕ
or_502 none = 502
or_502 (some status) = status

unfoldable pub connect_upstream : List Text → HandshakeEvent → Connected
connect_upstream protocols client_gone = client_aborted
connect_upstream protocols (opened selected) =
    if protocol_passes protocols selected
    then connected selected
    else failed_with (attempt_failed other)
connect_upstream protocols (unexpected_response status headers chunks ends) =
    if ends
    then rejected (or_502 status) headers (gather 0 chunks)
    else failed_with (attempt_failed other)
connect_upstream protocols (errored timed_out) =
    failed_with (attempt_failed (if timed_out then upstream_timeout else other))

-- What becomes of the request: an answer, the upstream's own refusal, a socket that is destroyed, a
-- bridge with the sub-protocol, or an exception.
pub data WebSocketAnswer : Type 0 where
  answered_with : List ReplyCall → WebSocketAnswer
  passed_back : List (Text × Text) → ℕ → List ℕ → WebSocketAnswer
  destroyed : WebSocketAnswer
  bridged : Option Text → WebSocketAnswer
  raised : ProxyError → WebSocketAnswer

pub record Proxied : Type 0 where
  pub answer : WebSocketAnswer
  pub balancer : Balancer
  -- the handshakes begun
  pub tried : List HandshakeRequest
  -- the calls of `recordUpstreamError`
  pub upstream_errors : List Text

abbrev pub passed_header : IncomingHeaders → Text → List (Text × Text)
passed_header headers name = elim (header name headers) [
  | none ↦ []
  | some (one value) ↦ (name, value) ∷ []
  | some (many values) ↦ []
]

abbrev pub passed_headers : IncomingHeaders → List (Text × Text)
passed_headers headers =
    passed_header headers (lit "content-type")
    ++ passed_header headers (lit "www-authenticate")
    ++ passed_header headers (lit "retry-after")

abbrev pub capacity_calls : List ReplyCall
capacity_calls =
    header_set (lit "retry-after") (text_value (lit "1"))
    ∷ sent 503 (lit "websocket_capacity") none
    ∷ []

-- `typeof args.headers.origin === 'string' ? args.headers.origin : undefined`
abbrev pub text_only : Option HeaderValue → Option Text
text_only none = none
text_only (some (one value)) = some value
text_only (some (many values)) = none

-- The outcome, with the target, the balancer after the pick, and the time it is known.
unfoldable pub on_connected : Connected → Text → Balancer → ℕ → WebSocketAnswer × Balancer
on_connected client_aborted target b now = (destroyed, b)
on_connected (failed_with error) target b now = (raised error, report_failure b target now)
on_connected (rejected status headers body) target b now = (
  passed_back (passed_headers headers) status body,
  if 500 ≤? status then report_failure b target now else report_success b target,
)
on_connected (connected protocol) target b now = (bridged protocol, report_success b target)

abbrev pub errors_of : Connected → List Text
errors_of client_aborted = []
errors_of (failed_with error) = []
errors_of (rejected status headers body) =
    if 500 ≤? status then lit "websocket_rejected" ∷ [] else []
errors_of (connected protocol) = []

-- The upstream and the clock.
pub record WebSocketWorld : Type 0 where
  pub handshake : HandshakeRequest → HandshakeEvent
  pub picked_at : ℕ
  pub known_at : ℕ

abbrev pub request_to :
    RouteConfig → WebSocketConfig → Text → IncomingHeaders → Text → Text → Text → HandshakeRequest
request_to route cfg path headers client_ip request_id target = record {
  target = target;
  path = path;
  headers = handshake_headers (build_outgoing_headers headers client_ip request_id);
  protocols = parse_protocols (header (lit "sec-websocket-protocol") headers);
  origin = text_only (header (lit "origin") headers);
  handshake_timeout = route.upstream.timeout_ms;
  max_payload = cfg.max_message_bytes;
}

-- Where a call stands at its `await`: refused at the limit, without a target, or with its handshake
-- under way.
pub data Begun : Type 0 where
  refused unpicked : Begun
  under_way : HandshakeRequest → Begun

module _ (world : WebSocketWorld) where
  abbrev pub attempt : HandshakeRequest → Balancer → Proxied
  attempt request b =
      let outcome = connect_upstream request.protocols (world.handshake request) in
      let (answer, b') = on_connected outcome request.target b world.known_at in
      record {
        answer = answer;
        balancer = b';
        tried = request ∷ [];
        upstream_errors = errors_of outcome;
      }

  -- `proxyWebSocket` up to its `await`, with the connections that the registry holds then, the
  -- route and its `websocket`, the balancer, the path, the transformed headers, the client's address
  -- and the request's id.
  abbrev pub begin_proxy :
      List TrackedConnection
      → RouteConfig
      → WebSocketConfig
      → Balancer
      → Text
      → IncomingHeaders
      → Text
      → Text
      → Begun × Balancer
  begin_proxy connections route cfg b path headers client_ip request_id =
      let (picked, b') = pick_target b world.picked_at in
      if cfg.max_connections ≤? count_for connections route.id then (refused, b) else elim picked [
        | none ↦ (unpicked, b')
        | some target ↦
            (under_way (request_to route cfg path headers client_ip request_id target), b')
      ]

  -- What follows the `await`, with the balancer as it is then. The registry is not read again.
  abbrev pub finish_proxy : Begun → Balancer → Proxied
  finish_proxy refused b = record {
    answer = answered_with capacity_calls;
    balancer = b;
    tried = [];
    upstream_errors = [];
  }
  finish_proxy unpicked b = record {
    answer = raised no_target;
    balancer = b;
    tried = [];
    upstream_errors = [];
  }
  finish_proxy (under_way request) b = attempt request b

  -- A call during whose `await` no other request changes the balancer.
  unfoldable pub proxy_websocket :
      List TrackedConnection
      → RouteConfig
      → WebSocketConfig
      → Balancer
      → Text
      → IncomingHeaders
      → Text
      → Text
      → Proxied
  proxy_websocket connections route cfg b path headers client_ip request_id =
      let (begun, b') = begin_proxy connections route cfg b path headers client_ip request_id in
      finish_proxy begun b'
