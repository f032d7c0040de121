-- ===== src/Gateway/Hooks.antt =====
-- packages/gateway/src/server.ts: the hooks around the handler. The two 'onRequest' hooks come before
-- it, 'onSend' before a reply is sent, and 'onResponse' after it.
pub mod Laws
use apigateaway.Common.{
  ℕ, Bool, true, false, ◌&&◌, Option, none, some, List, [], ◌∷◌, ◌++◌, map, if◌then◌else◌, Text,
  lit, text_eq, find, or_else,
}
use apigateaway.Config.{RouteConfig, CorsConfig}
use apigateaway.Http.{ReplyCall, header_set, text_value}
use apigateaway.Http.Limits.{enforce_header_limit, enforce_body_limit}
use apigateaway.Http.Cors.{is_origin_allowed, apply_cors_response_headers}
use apigateaway.Proxy.Headers.{header}
use apigateaway.Usage.{UsageBuffer, push}
use apigateaway.WebSocket.Connect.{text_only}
use apigateaway.Gateway.Runtime.{RuntimeState}
use apigateaway.Gateway.Exchange.{Request, World, replied, Handled, stopped}
use apigateaway.Gateway.Handler.{handle}

-- A hook that has sent a reply stops the request.
abbrev pub unless_sent : RuntimeState → List ReplyCall → Handled → Handled
unless_sent state [] going_on = going_on
unless_sent state (call ∷ calls) going_on = stopped (map replied (call ∷ calls)) state none none

module _ (world : World) where
  -- The limits are those of the configuration at the boot, whose server section stays.
  unfoldable pub receive : RuntimeState → Request → Handled
  receive state request =
      unless_sent state (enforce_header_limit state.config.server.max_header_count request.headers)
        (unless_sent state (enforce_body_limit state.config.server.max_body_bytes request.headers)
          (handle world state request))

abbrev pub has_id : Text → RouteConfig → Bool
has_id id route = text_eq route.id id

abbrev pub cors_calls : Option RouteConfig → Text → List ReplyCall
cors_calls none origin = []
cors_calls (some route) origin = elim route.cors [
  | none ↦ []
  | some cors ↦
      if cors.enabled && is_origin_allowed cors origin
      then apply_cors_response_headers cors origin
      else []
]

abbrev pub cors_for : List RouteConfig → Option Text → Option Text → List ReplyCall
cors_for routes none route_id = []
cors_for routes (some origin) none = []
cors_for routes (some origin) (some id) = cors_calls (find (has_id id) routes) origin

-- The calls of the hook, from the routes in force, the request, and the route it was found to match.
unfoldable pub on_send : List RouteConfig → Request → Option Text → List ReplyCall
on_send routes request route_id =
    header_set (lit "x-request-id") (text_value request.request_id)
    ∷ cors_for routes (text_only (header (lit "origin") request.headers)) route_id

pub record UsageRecord : Type 0 where
  pub tenant_id : Text
  pub route_id : Text
  pub status_code : ℕ
  pub latency_ms : ℕ

-- What `recordRequest` is called with.
pub record RequestRecord : Type 0 where
  pub route : Text
  pub status_code : ℕ
  pub tenant : Option Text

abbrev pub recorded : Handled → ℕ → RequestRecord
recorded h status = record {
  route = or_else h.route_id (lit "unmatched");
  status_code = status;
  tenant = h.tenant_id;
}

-- The record of a request that has a tenant and a route.
abbrev pub usage_of : Option Text → Option Text → ℕ → ℕ → Option UsageRecord
usage_of none route_id status latency = none
usage_of (some tenant) none status latency = none
usage_of (some tenant) (some route) status latency =
    some
      (record { tenant_id = tenant; route_id = route; status_code = status; latency_ms = latency })

abbrev pub push_usage : ℕ → UsageBuffer UsageRecord → Option UsageRecord → UsageBuffer UsageRecord
push_usage max_batch_size buffer none = buffer
push_usage max_batch_size buffer (some r) = push max_batch_size buffer r

-- The status and the time of the reply are Fastify's.
unfoldable pub on_response :
    ℕ → UsageBuffer UsageRecord → Handled → ℕ → ℕ → RequestRecord × UsageBuffer UsageRecord
on_response max_batch_size buffer h status latency = (
  recorded h status,
  push_usage max_batch_size buffer (usage_of h.tenant_id h.route_id status latency),
)
