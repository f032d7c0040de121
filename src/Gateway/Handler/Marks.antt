-- ===== src/Gateway/Handler/Marks.antt =====
-- The route and the tenant that the handler leaves on a request.
use apigateaway.Common.{
  ◌≡◌, refl, sym, ◌∙◌, Option, none, some, Text, Bool-cases, Option-cases, inl, inr, lookup,
}
use apigateaway.Config.{RouteConfig}
use apigateaway.Auth.{AuthAnswer, AuthOutcome, let_in, unauthorized, misconfigured, thrown}
use apigateaway.Cache.Store.{CachedResponse, Entries, get}
use apigateaway.WebSocket.Connect.{is_not_empty}
use apigateaway.Gateway.Runtime.{RuntimeState}
use apigateaway.Gateway.Exchange.{Request, World, Handled}
use apigateaway.Gateway.Checks.{Limited, passes, stops, prepared}
use apigateaway.Gateway.Handler.{
  Cached, tenant_mark, forward, of_read, serve, serve_websocket, of_limited, of_answer,
  admit_request, handle,
}
use apigateaway.Gateway.Handler.Admission.{handle_cases, route_for, IsLetIn}

abbrev IsMarked : Handled → RouteConfig → Option Text → Type 0
IsMarked h route mark = (h.route_id ≡ some route.id) × (h.tenant_id ≡ mark)

tenant_mark-some :
    (tenant_id : Option Text) (t : Text) → tenant_mark tenant_id ≡ some t → tenant_id ≡ some t
tenant_mark-some none t h = h
tenant_mark-some (some tenant) t h = elim (Bool-cases (is_not_empty tenant)) [
  | inl e ↦ rw e at h
  | inr e ↦ impossible (rw e at h)
]
  where
    impossible : none ≡ some t → some tenant ≡ some t
    impossible h = cc

module _ (world : World) where
  forward-IsMarked :
      (state : RuntimeState) (route : RouteConfig) (request : Request) (mark : Option Text)
      (cached : Option Cached)
      → IsMarked (forward world state route request mark cached) route mark
  unfolding forward
  forward-IsMarked state route request mark cached =
      elim (Option-cases (lookup route.id state.balancers)) [
        | inl e ↦ rw (e, forward) (refl, refl)
        | inr (b, e) ↦ rw (e, forward) (refl, refl)
      ]

  of_read-IsMarked :
      (state : RuntimeState) (route : RouteConfig) (request : Request) (mark : Option Text)
      (c : Cached) (read : Option CachedResponse × Entries)
      → IsMarked (of_read world state route request mark c read) route mark
  of_read-IsMarked state route request mark c (some response, entries) = (refl, refl)
  of_read-IsMarked state route request mark c (none, entries) =
      forward-IsMarked _ route request mark _

  serve-IsMarked :
      (state : RuntimeState) (route : RouteConfig) (request : Request) (mark : Option Text)
      (cached : Option Cached)
      → IsMarked (serve world state route request mark cached) route mark
  unfolding serve
  serve-IsMarked state route request mark none = forward-IsMarked state route request mark none
  serve-IsMarked state route request mark (some c) =
      of_read-IsMarked state route request mark c (get c.entries c.key world.read_at)

  serve_websocket-IsMarked :
      (state : RuntimeState) (route : RouteConfig) (request : Request) (mark : Option Text)
      → IsMarked (serve_websocket world state route request mark) route mark
  unfolding serve_websocket
  serve_websocket-IsMarked state route request mark =
      elim (Option-cases (lookup route.id state.balancers)) [
        | inl e ↦ rw (e, serve_websocket) (refl, refl)
        | inr (b, e) ↦ elim (Option-cases route.websocket) [
          | inl w ↦ rw (e, w, serve_websocket) (refl, refl)
          | inr (cfg, w) ↦ rw (e, w, serve_websocket) (refl, refl)
        ]
      ]

  of_limited-IsMarked :
      (route : RouteConfig) (request : Request) (host tenant_id : Option Text) (l : Limited)
      → IsMarked (of_limited world route request host tenant_id l) route (tenant_mark tenant_id)
  of_limited-IsMarked route request host tenant_id (stops acts state) = (refl, refl)
  of_limited-IsMarked route request host tenant_id (passes acts state) =
      elim (Bool-cases request.upgrade) [
        | inl u ↦ simp u (serve_websocket-IsMarked state route request _)
        | inr u ↦ simp u (serve-IsMarked state route request _ _)
      ]

  -- The route and the tenant of a request with a tenant.
  abbrev pub IsVouched : RuntimeState → Request → Option Text → Text → Type 0
  IsVouched state request route_id tenant =
      (route : RouteConfig) × (outcome : AuthOutcome) × (route_for state request ≡ some route)
      × IsLetIn world route request outcome
      × (route_id ≡ some route.id)
      × (outcome.tenant_id ≡ some tenant)

  of_answer-tenant :
      (state : RuntimeState) (route : RouteConfig) (request : Request) (host : Option Text)
      (answer : AuthAnswer) (t : Text)
      → (of_answer world state route request host answer).tenant_id ≡ some t
      → (outcome : AuthOutcome) × (answer ≡ let_in outcome)
        × ((of_answer world state route request host answer).route_id ≡ some route.id)
        × (outcome.tenant_id ≡ some t)
  of_answer-tenant state route request host (let_in outcome) t h =
      let (r, m) = of_limited-IsMarked route request host outcome.tenant_id _ in
      (outcome, refl, r, tenant_mark-some outcome.tenant_id t (sym m ∙ h))
  of_answer-tenant state route request host unauthorized t h = cc
  of_answer-tenant state route request host misconfigured t h = cc
  of_answer-tenant state route request host thrown t h = cc

  pub handle-IsVouched :
      (state : RuntimeState) (request : Request) (t : Text)
      → (handle world state request).tenant_id ≡ some t
      → IsVouched state request (handle world state request).route_id t
  unfolding admit_request
  handle-IsVouched state request t =
      handle_cases world (λ h. h.tenant_id ≡ some t → IsVouched state request h.route_id t) state
        request (λ h e s n r. cc)
        (λ route m r.
          let (outcome, e, i, o) =
            of_answer-tenant state route (prepared world.decode route request) _ _ t r in
          (route, outcome, m, e, i, o))
