-- ===== src/WebSocket/Connect/Laws.antt =====
-- What connecting to the upstream promises.
use apigateaway.Common.{
  ◌≡◌, refl, subst, lit, ℕ, ◌+◌, ◌≤◌, ◌<◌, ◌≤?◌, true, false, Option, some, List, [], ◌∷◌, ◌++◌,
  Text, length, length-append, All, Bool-cases, Option-cases, inl, inr, arith,
}
use apigateaway.Config.{RouteConfig, WebSocketConfig}
use apigateaway.Http.Limits.{Chunk}
use apigateaway.Proxy.Headers.{IncomingHeaders, header}
use apigateaway.Balancer.{Balancer, pick_target}
use apigateaway.WebSocket.Registry.{TrackedConnection, count_for}
use apigateaway.WebSocket.Connect.{
  WebSocketWorld, HandshakeRequest, HandshakeEvent, client_gone, opened, unexpected_response,
  errored, Connected, connected, rejected, client_aborted, failed_with, connect_upstream,
  on_connected, protocol_passes, rejection_body_limit, gather, WebSocketAnswer, answered_with,
  passed_back, destroyed, bridged, raised, request_to, Begun, begin_proxy, finish_proxy,
  parse_protocols,
}

abbrev AtMost : ℕ → Chunk → Type 0
AtMost n chunk = length chunk ≤ n

gather-le :
    (n size : ℕ) (chunks : List Chunk)
    → All (AtMost n) chunks
    → size ≤ rejection_body_limit + n
    → length (gather size chunks) + size ≤ rejection_body_limit + n
unfolding gather
gather-le n size [] h s = omega arith
gather-le n size (chunk ∷ chunks) (c, cs) s = elim (Bool-cases (rejection_body_limit ≤? size)) [
  | inl e ↦ rw (e, gather) (gather-le n size chunks cs s)
  | inr e ↦
      rw (e, gather)
        (step (length-append chunk (gather (size + length chunk) chunks))
          (gather-le n (size + length chunk) chunks cs (fits e)))
]
  where
    fits : (rejection_body_limit ≤? size) ≡ false → size + length chunk ≤ rejection_body_limit + n
    fits e = ground (arith, c)

    step :
        length (chunk ++ gather (size + length chunk) chunks)
          ≡ length chunk + length (gather (size + length chunk) chunks)
        → length (gather (size + length chunk) chunks) + (size + length chunk)
          ≤ rejection_body_limit + n
        → length (chunk ++ gather (size + length chunk) chunks) + size ≤ rejection_body_limit + n
    step e h = omega arith

abbrev pub body_of : Connected → List ℕ
body_of (connected protocol) = []
body_of (rejected status headers body) = body
body_of client_aborted = []
body_of (failed_with error) = []

abbrev ChunksAtMost : ℕ → HandshakeEvent → Type 0
ChunksAtMost n client_gone = Unit
ChunksAtMost n (opened selected) = Unit
ChunksAtMost n (unexpected_response status headers chunks ends) = All (AtMost n) chunks
ChunksAtMost n (errored timed_out) = Unit

-- Where no chunk is longer than n, the body of a refused handshake that is kept for the client has at
-- most 64 KiB and n bytes, however long the upstream's answer is.
pub connect_upstream-le :
    (n : ℕ) (protocols : List Text) (event : HandshakeEvent)
    → ChunksAtMost n event
    → length (body_of (connect_upstream protocols event)) ≤ rejection_body_limit + n
unfolding connect_upstream
connect_upstream-le n protocols client_gone h = omega arith
connect_upstream-le n protocols (opened selected) h =
    elim (Bool-cases (protocol_passes protocols selected)) [
      | inl e ↦ rw (e, connect_upstream) (omega arith)
      | inr e ↦ rw (e, connect_upstream) (omega arith)
    ]
connect_upstream-le n protocols (unexpected_response status headers chunks ends) h =
    elim (Bool-cases ends) [
      | inl e ↦ rw (e, connect_upstream) (step (gather-le n 0 chunks h (omega arith)))
      | inr e ↦ rw (e, connect_upstream) (omega arith)
    ]
  where
    step :
        length (gather 0 chunks) + 0 ≤ rejection_body_limit + n
        → length (gather 0 chunks) ≤ rejection_body_limit + n
    step h = omega arith
connect_upstream-le n protocols (errored timed_out) h = omega arith

-- A sub-protocol of a bridge is one that was offered.
abbrev Offered : List Text → WebSocketAnswer → Type 0
Offered protocols (answered_with calls) = Unit
Offered protocols (passed_back headers status body) = Unit
Offered protocols destroyed = Unit
Offered protocols (bridged selected) = protocol_passes protocols selected ≡ true
Offered protocols (raised error) = Unit

on_connected-Offered :
    (event : HandshakeEvent) (protocols : List Text) (target : Text) (b : Balancer) (now : ℕ)
    → Offered protocols (on_connected (connect_upstream protocols event) target b now).0
unfolding on_connected connect_upstream
on_connected-Offered client_gone protocols target b now = tt
on_connected-Offered (opened chosen) protocols target b now =
    elim (Bool-cases (protocol_passes protocols chosen)) [
      | inl e ↦ rw (e, on_connected, connect_upstream) e
      | inr e ↦ rw (e, on_connected, connect_upstream) tt
    ]
on_connected-Offered (unexpected_response status headers chunks ends) protocols target b now =
    elim (Bool-cases ends) [
      | inl e ↦ rw (e, on_connected, connect_upstream) tt
      | inr e ↦ rw (e, on_connected, connect_upstream) tt
    ]
on_connected-Offered (errored timed_out) protocols target b now = tt

module _ (world : WebSocketWorld) (connections : List TrackedConnection) (route : RouteConfig)
    (cfg : WebSocketConfig) (b : Balancer) (path : Text) (headers : IncomingHeaders)
    (ip request_id : Text) where
  -- The call at its `await`.
  abbrev pub begun : Begun
  begun = (begin_proxy world connections route cfg b path headers ip request_id).0

  -- What a bridge needs: room below the route's limit when the request came, and a target that the
  -- balancer picked.
  abbrev pub Grounds : List HandshakeRequest → Type 0
  Grounds tried =
      (count_for connections route.id < cfg.max_connections)
      × (target : Text) × ((pick_target b world.picked_at).0 ≡ some target)
      × (tried ≡ request_to route cfg path headers ip request_id target ∷ [])

  -- A request ends in a bridge only if, at the moment it came, the registry held fewer connections of
  -- the route than its limit; then there was one handshake, with the target that the balancer picked
  -- at that moment, and the bridge has no sub-protocol or one that the client offered. So it is
  -- whatever other requests do to the balancer while the handshake is under way.
  pub proxy_websocket-bridged :
      (later : Balancer) (selected : Option Text)
      → (finish_proxy world begun later).answer ≡ bridged selected
      → Grounds (finish_proxy world begun later).tried
        × (protocol_passes
              (parse_protocols (header (lit "sec-websocket-protocol") headers))
              selected
            ≡ true)
  proxy_websocket-bridged later selected =
      elim (Bool-cases (cfg.max_connections ≤? count_for connections route.id)) [
        | inl e ↦ rw (e, finish_proxy) (λ h. cc)
        | inr e ↦ elim (Option-cases (pick_target b world.picked_at).0) [
          | inl n ↦ rw (e, n, finish_proxy) (λ h. cc)
          | inr (target, n) ↦
              rw (e, n, finish_proxy)
                (λ h. (
                  (ground (arith, e), target, refl, refl),
                  subst (Offered protocols) h
                      (on_connected-Offered (event target) protocols target later world.known_at),
                ))
        ]
      ]
    where
      protocols : List Text
      protocols = parse_protocols (header (lit "sec-websocket-protocol") headers)

      event : Text → HandshakeEvent
      event target = world.handshake (request_to route cfg path headers ip request_id target)
