-- ===== src/Gateway/Exchange.antt =====
-- packages/gateway/src/server.ts: what the handler of `app.all('/*')` is given, and what it does.
pub mod Laws
use apigateaway.Common.{ℕ, Bool, Option, none, some, List, [], ◌∷◌, ◌++◌, Text, lit, join}
use apigateaway.Http.{ReplyCall, sent}
use apigateaway.Auth.{AuthWorld, AuthEffect}
use apigateaway.Proxy.Headers.{HeaderValue, one, many, IncomingHeaders, Headers, header}
use apigateaway.Proxy.Retry.{Environment, ForwardError}
use apigateaway.WebSocket.Registry.{TrackedConnection}
use apigateaway.WebSocket.Connect.{HandshakeRequest, WebSocketWorld}
use apigateaway.Gateway.Runtime.{RuntimeState}

-- `requestIdHeader` and `genReqId`: the id that Fastify gives a request is the value of the header, if
-- it has one that is not empty, and a generated one else. Node gives this header as one text.
abbrev id_from : Option HeaderValue → Text → Text
id_from none generated = generated
id_from (some (one [])) generated = generated
id_from (some (one (c ∷ s))) generated = c ∷ s
id_from (some (many values)) generated = join (lit ",") values

unfoldable pub request_id_of : IncomingHeaders → Text → Text
request_id_of headers generated = id_from (header (lit "x-request-id") headers) generated

-- `upgrade` is whether the request came by an 'upgrade' event.
pub record Request : Type 0 where
  pub method : Text
  pub url : Text
  pub headers : IncomingHeaders
  pub ip : Text
  pub hostname : Option Text
  pub request_id : Text
  pub upgrade : Bool
  -- the exception of reading the whole body, if there would be one
  pub buffering : Option ForwardError

-- What `forwardWithRetry` is given of the request.
pub record UpstreamRequest : Type 0 where
  pub method : Text
  pub path : Text
  pub headers : Headers
  pub has_body : Bool
  pub timeout_ms : ℕ

-- What is outside of the repository at the moment of the request, and the times that are read.
pub record World : Type 0 where
  pub auth : AuthWorld
  pub decode : Text → Text
  pub sha256 : Text → Text
  pub encode_uri_component : Text → Text
  pub upstream : UpstreamRequest → Environment
  pub websocket : WebSocketWorld
  pub connections : List TrackedConnection
  pub limited_at : ℕ
  pub read_at : ℕ
  pub stored_at : ℕ

-- What the handler does, in its order: calls on the reply, and calls on what is around it.
pub data Act : Type 0 where
  replied : ReplyCall → Act
  -- `reply.header` with a header of the upstream or of the cache
  header_copied : Text → HeaderValue → Act
  status_set : ℕ → Act
  body_sent : List ℕ → Act
  auth_wrote : AuthEffect → Act
  limit_decided : Text → Bool → Act
  cache_hit cache_miss : Text → Act
  upstream_error : Text → Text → Act
  -- the socket is destroyed, is bridged, or an exception leaves the handler
  socket_destroyed : Act
  socket_bridged : Option Text → Act
  escaped : Act

-- `apigateRouteId` and `apigateTenantId` are what the handler leaves on the request.
pub record Handled : Type 0 where
  pub acts : List Act
  pub state : RuntimeState
  pub route_id : Option Text
  pub tenant_id : Option Text
  -- the upstream's targets that were sent the request, and the handshakes begun
  pub asked : List Text
  pub handshakes : List HandshakeRequest

abbrev pub stopped : List Act → RuntimeState → Option Text → Option Text → Handled
stopped acts state route_id tenant_id = record {
  acts = acts;
  state = state;
  route_id = route_id;
  tenant_id = tenant_id;
  asked = [];
  handshakes = [];
}

abbrev pub after : List Act → Handled → Handled
after acts h = record h { acts = acts ++ h.acts }

abbrev pub refusing : ℕ → Text → List Act
refusing status error = replied (sent status error none) ∷ []
