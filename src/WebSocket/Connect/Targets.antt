-- ===== src/WebSocket/Connect/Targets.antt =====
-- A handshake changes no target of the balancer.
use apigateaway.Common.{◌≡◌, refl, ◌∙◌, ℕ, ◌≤?◌, Text, Bool-cases, Option-cases, inl, inr}
use apigateaway.Config.{RouteConfig, WebSocketConfig}
use apigateaway.Proxy.Headers.{IncomingHeaders}
use apigateaway.Balancer.{Balancer, pick_target}
use apigateaway.Balancer.Targets.{urls, urls-pick_target, urls-report_success, urls-report_failure}
use apigateaway.WebSocket.Registry.{TrackedConnection, count_for}
use apigateaway.WebSocket.Connect.{
  WebSocketWorld, Connected, connected, rejected, client_aborted, failed_with, on_connected,
  proxy_websocket,
}
use apigateaway.Common.{List}

urls-on_connected :
    (outcome : Connected) (target : Text) (b : Balancer) (now : ℕ)
    → urls (on_connected outcome target b now).1 ≡ urls b
unfolding on_connected
urls-on_connected client_aborted target b now = refl
urls-on_connected (failed_with error) target b now = urls-report_failure b target now
urls-on_connected (connected protocol) target b now = urls-report_success b target
urls-on_connected (rejected status headers body) target b now = elim (Bool-cases (500 ≤? status)) [
  | inl e ↦ rw (e, on_connected) (urls-report_failure b target now)
  | inr e ↦ rw (e, on_connected) (urls-report_success b target)
]

pub urls-proxy_websocket :
    (world : WebSocketWorld) (connections : List TrackedConnection) (route : RouteConfig)
    (cfg : WebSocketConfig) (b : Balancer) (path : Text) (headers : IncomingHeaders)
    (ip request_id : Text)
    → urls (proxy_websocket world connections route cfg b path headers ip request_id).balancer
      ≡ urls b
unfolding proxy_websocket
urls-proxy_websocket world connections route cfg b path headers ip request_id =
    let picked = urls-pick_target b world.picked_at in
    elim (Bool-cases (cfg.max_connections ≤? count_for connections route.id)) [
      | inl e ↦ rw (e, proxy_websocket) refl
      | inr e ↦ elim (Option-cases (pick_target b world.picked_at).0) [
        | inl n ↦ rw (e, n, proxy_websocket) picked
        | inr (target, n) ↦ rw (e, n, proxy_websocket) (urls-on_connected _ target _ _ ∙ picked)
      ]
    ]
