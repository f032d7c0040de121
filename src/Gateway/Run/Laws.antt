-- ===== src/Gateway/Run/Laws.antt =====
-- What holds of the state of a gateway at any time.
use apigateaway.Common.{◌≡◌, false}
use apigateaway.Config.{GatewayConfig}
use apigateaway.Gateway.Runtime.{RuntimeState, lacks_db}
use apigateaway.Gateway.Runtime.Served.{IsServed}
use apigateaway.Gateway.Runtime.Reload.{SameSections}
use apigateaway.Gateway.Run.Grows.{Grows}

-- The state is one of the configuration that was booted: its balancers are over the targets of its
-- routes, the sections that no reload may change are those of the boot, and no route lacks its
-- database.
pub record IsRunning (initial : GatewayConfig) (state : RuntimeState) : Type 0 where
  pub served : IsServed state
  pub sections : SameSections initial state.config
  pub has_db : lacks_db state.config ≡ false
