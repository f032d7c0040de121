-- ===== src/Gateway/Run.antt =====
-- packages/gateway/src/server.ts: the life of a gateway, as what happens to its state one after the
-- other: requests, reloads of the configuration, and purges of the cache by an administrator. The
-- parts of a handler that run between two `await`s are not interleaved.
pub mod Grows
pub mod Laws
use apigateaway.Common.{ℕ, Option, List, [], ◌∷◌, Text}
use apigateaway.Config.{GatewayConfig}
use apigateaway.Gateway.Runtime.{RuntimeState, reload, purge_cache}
use apigateaway.Gateway.Exchange.{Request, World}
use apigateaway.Gateway.Hooks.{receive}

pub data GatewayEvent : Type 0 where
  requested : World → Request → GatewayEvent
  reloaded : GatewayConfig → GatewayEvent
  purged : World → Text → Option Text → GatewayEvent

unfoldable pub step : RuntimeState → GatewayEvent → RuntimeState
step state (requested world request) = (receive world state request).state
step state (reloaded config) = (reload state config).0
step state (purged world route_id path) =
    (purge_cache world.sha256 world.encode_uri_component state route_id path world.read_at).1

unfoldable pub run : RuntimeState → List GatewayEvent → RuntimeState
run state [] = state
run state (e ∷ es) = run (step state e) es
