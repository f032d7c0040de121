-- ===== src/Watch.antt =====
-- packages/gateway/src/config/watch.ts: reloads of the configuration, on a signal or a change of the
-- file. `loadConfig` and `onReload` belong to the gateway around it: what they give is the event's.
pub mod Laws
use apigateaway.Common.{Bool, true, false, Option, none, some, List, [], ◌∷◌, ◌++◌, if◌then◌else◌}
use apigateaway.Config.{GatewayConfig}

-- `onReload` throws at once, or gives a promise.
pub data Started : Type 0 where
  threw_at_once promised : Started

pub data WatchEvent : Type 0 where
  -- the signal or the file: the configuration loaded, if it is valid, and what `onReload` would do
  triggered : Option GatewayConfig → Started → WatchEvent
  -- the promise settles: with success or not
  settled : Bool → WatchEvent

pub data WatchCall : Type 0 where
  reload_called : GatewayConfig → WatchCall
  error_reported : WatchCall

-- The flag `reloading`, and the calls made in the step.
abbrev pub WatchStep : Type 0
WatchStep = Bool × List WatchCall

abbrev pub on_started : GatewayConfig → Started → WatchStep
on_started config threw_at_once = (false, reload_called config ∷ error_reported ∷ [])
on_started config promised = (true, reload_called config ∷ [])

abbrev pub on_loaded : Option GatewayConfig → Started → WatchStep
on_loaded none started = (false, error_reported ∷ [])
on_loaded (some config) started = on_started config started

-- A trigger during a reload is dropped.
unfoldable pub watch_step : Bool → WatchEvent → WatchStep
watch_step reloading (triggered loaded started) =
    if reloading then (true, []) else on_loaded loaded started
watch_step reloading (settled true) = (false, [])
watch_step reloading (settled false) = (false, error_reported ∷ [])

unfoldable pub watch_run : Bool → List WatchEvent → List WatchCall
watch_run reloading [] = []
watch_run reloading (e ∷ es) = (watch_step reloading e).1 ++ watch_run (watch_step reloading e).0 es
