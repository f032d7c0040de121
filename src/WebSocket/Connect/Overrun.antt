-- ===== src/WebSocket/Connect/Overrun.antt =====
-- The limit of connections while handshakes are under way: proxy.ts tests it before its `await`, and
-- registers a connection in `acceptClient`, after it.
use apigateaway.Common.{
  ◌≡◌, refl, ◌+◌, ◌<◌, ◌≤?◌, true, false, Option, some, List, [], ◌∷◌, Text, text_eq, length, All,
  any, ◌∙◌, arith, lit,
}
use apigateaway.Config.{RouteConfig, WebSocketConfig}
use apigateaway.Proxy.Headers.{IncomingHeaders, header}
use apigateaway.Balancer.{Balancer, pick_target}
use apigateaway.WebSocket.Registry.{TrackedConnection, is_same, add, count_for}
use apigateaway.WebSocket.Registry.Laws.{count_for-add}
use apigateaway.WebSocket.Connect.{
  WebSocketWorld, opened, connect_upstream, on_connected, protocol_passes, bridged, request_to,
  finish_proxy, parse_protocols,
}
use apigateaway.WebSocket.Connect.Laws.{begun}

-- A request for a bridge: its handshake and its times, the balancer when it comes and when its
-- handshake ends, and the connection that stands for its bridge.
pub record Call : Type 0 where
  pub world : WebSocketWorld
  pub before : Balancer
  pub later : Balancer
  pub connection : TrackedConnection

-- The registry once the bridges of the calls are registered.
unfoldable pub registered : List TrackedConnection → List Call → List TrackedConnection
registered connections [] = connections
registered connections (c ∷ calls) = registered (add connections c.connection) calls

module _ (connections : List TrackedConnection) (route : RouteConfig) (cfg : WebSocketConfig)
    (path : Text) (headers : IncomingHeaders) (ip request_id : Text) (selected : Option Text) where
  -- The balancer has a target for the call, and the target opens the handshake.
  abbrev pub IsOpened : Call → Type 0
  IsOpened c =
      (target : Text) × ((pick_target c.before c.world.picked_at).0 ≡ some target)
      × (c.world.handshake (request_to route cfg path headers ip request_id target)
          ≡ opened selected)

  -- The call, which found the connections given in the registry, ends in a bridge.
  abbrev pub IsBridged : Call → Type 0
  IsBridged c =
      (finish_proxy c.world
        (begun c.world connections route cfg c.before path headers ip request_id) c.later).answer
      ≡ bridged selected

  -- The connections of the calls are of the route, and new.
  abbrev pub AreNew : List TrackedConnection → List Call → Type 0
  AreNew held [] = Unit
  AreNew held (c ∷ calls) =
      (any (is_same c.connection) held ≡ false)
      × (text_eq c.connection.route_id route.id ≡ true)
      × AreNew (add held c.connection) calls

  count_for-registered :
      (held : List TrackedConnection) (calls : List Call)
      → AreNew held calls
      → count_for (registered held calls) route.id ≡ count_for held route.id + length calls
  unfolding registered
  count_for-registered held [] h = omega arith
  count_for-registered held (c ∷ calls) (fresh, own, h) =
      let one_more : count_for (add held c.connection) route.id ≡ count_for held route.id + 1 =
        count_for-add held c.connection route.id ∙ rw (fresh, own) refl in
      let rest = count_for-registered (add held c.connection) calls h in
      omega (arith, one_more, rest)

  All-IsBridged :
      (calls : List Call)
      → count_for connections route.id < cfg.max_connections
      → protocol_passes (parse_protocols (header (lit "sec-websocket-protocol") headers)) selected
        ≡ true
      → All IsOpened calls
      → All IsBridged calls
  unfolding connect_upstream on_connected
  All-IsBridged [] room offered h = tt
  All-IsBridged (c ∷ calls) room offered ((target, p, o), h) =
      let below : (cfg.max_connections ≤? count_for connections route.id) ≡ false =
        ground (arith, room) in
      (rw (below, p, finish_proxy, o, offered) refl, All-IsBridged calls room offered h)

  -- The limit of connections does not bound the bridges. While a route is one below its limit, any
  -- number of requests may come before the first of their handshakes ends: each that gets a target
  -- which opens the handshake ends in a bridge, and the registry then holds that many connections of
  -- the route more.
  pub limit_overrun :
      (calls : List Call)
      → count_for connections route.id + 1 ≡ cfg.max_connections
      → protocol_passes (parse_protocols (header (lit "sec-websocket-protocol") headers)) selected
        ≡ true
      → All IsOpened calls
      → AreNew connections calls
      → All IsBridged calls
        × (count_for (registered connections calls) route.id + 1
            ≡ cfg.max_connections + length calls)
  limit_overrun calls limit offered h new =
      let room : count_for connections route.id < cfg.max_connections = omega (arith, limit) in
      let counted = count_for-registered connections calls new in
      (All-IsBridged calls room offered h, omega (arith, counted, limit))
