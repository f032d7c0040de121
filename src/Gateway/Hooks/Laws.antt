-- ===== src/Gateway/Hooks/Laws.antt =====
-- What the hooks add to what the handler promises.
use apigateaway.Common.{
  ◌≡◌, refl, ap, subst, ℕ, Bool, true, false, ◌&&◌, ◌<?◌, Option, none, some, List, Text, lit,
  text_eq, find, any, length, Bool-cases, Option-cases, inl, inr, and_true, ◌⊎◌,
}
use apigateaway.Config.{RouteConfig, CorsConfig}
use apigateaway.Http.{ReplyCall, header_set, sent}
use apigateaway.Http.Limits.{enforce_header_limit, enforce_body_limit, declared_length, exceeds}
use apigateaway.Http.Cors.{is_origin_allowed}
use apigateaway.Proxy.Headers.{header}
use apigateaway.WebSocket.Connect.{text_only}
use apigateaway.Gateway.Runtime.{RuntimeState}
use apigateaway.Gateway.Exchange.{Request, World}
use apigateaway.Gateway.Handler.Ends.{ends}
use apigateaway.Gateway.Handler.Once.{handle-ends}
use apigateaway.Gateway.Handler.Admission.{reaches}
use apigateaway.Gateway.Handler.Marks.{IsVouched, handle-IsVouched}
use apigateaway.Gateway.Hooks.{
  receive, has_id, cors_calls, cors_for, on_send, UsageRecord, usage_of,
}

module _ (world : World) where
  -- Every request that comes in is ended exactly once, also one that is over the limits of a header
  -- or a body; such a one reaches no upstream and changes no state.
  pub receive-ends :
      (state : RuntimeState) (request : Request)
      → let h = receive world state request in
        (ends h.acts ≡ 1)
        × (((state.config.server.max_header_count <? length request.headers) ≡ true)
              ⊎ (exceeds (declared_length request.headers) state.config.server.max_body_bytes
                  ≡ true)
            → (reaches h ≡ false) × (h.state ≡ state))
  unfolding receive enforce_header_limit enforce_body_limit
  receive-ends state request =
      elim (Bool-cases (state.config.server.max_header_count <? length request.headers)) [
        | inl e ↦ rw (receive, enforce_header_limit, e) (refl, λ h. (refl, refl))
        | inr e ↦
            elim (Bool-cases
              (exceeds (declared_length request.headers) state.config.server.max_body_bytes)) [
                | inl f ↦
                    rw (receive, enforce_header_limit, e, enforce_body_limit, f)
                      (refl, λ h. (refl, refl))
                | inr f ↦
                    rw (receive, enforce_header_limit, e, enforce_body_limit, f)
                      (handle-ends world state request, λ h. elim h [ inl x ↦ cc | inr x ↦ cc ])
              ]
      ]

  usage_of-some :
      (tenant route_id : Option Text) (status latency : ℕ) (r : UsageRecord)
      → usage_of tenant route_id status latency ≡ some r
      → (tenant ≡ some r.tenant_id) × (route_id ≡ some r.route_id)
  usage_of-some none route_id status latency r h = cc
  usage_of-some (some t) none status latency r h = cc
  usage_of-some (some t) (some id) status latency r h = (
    ap (λ (u : Option UsageRecord). tenant_in u) h,
    ap (λ (u : Option UsageRecord). route_in u) h,
  )
    where
      tenant_in : Option UsageRecord → Option Text
      tenant_in none = none
      tenant_in (some u) = some u.tenant_id

      route_in : Option UsageRecord → Option Text
      route_in none = none
      route_in (some u) = some u.route_id

  receive-tenant :
      (state : RuntimeState) (request : Request) (t : Text)
      → (receive world state request).tenant_id ≡ some t
      → IsVouched world state request (receive world state request).route_id t
  unfolding receive enforce_header_limit enforce_body_limit
  receive-tenant state request t h =
      elim (Bool-cases (state.config.server.max_header_count <? length request.headers)) [
        | inl e ↦ impossible (rw (receive, enforce_header_limit, e) at h)
        | inr e ↦
            elim (Bool-cases
              (exceeds (declared_length request.headers) state.config.server.max_body_bytes)) [
                | inl f ↦
                    impossible (rw (receive, enforce_header_limit, e, enforce_body_limit, f) at h)
                | inr f ↦
                    rw (receive, enforce_header_limit, e, enforce_body_limit, f)
                      (handle-IsVouched world state request t
                        (rw (receive, enforce_header_limit, e, enforce_body_limit, f) at h))
              ]
      ]
    where
      impossible :
          none ≡ some t → IsVouched world state request (receive world state request).route_id t
      impossible h = cc

  -- A usage record is made only of a request that its route's authentication has let in, and it
  -- names that route, and the tenant that the authentication gave.
  pub usage_of-receive :
      (state : RuntimeState) (request : Request) (status latency : ℕ) (r : UsageRecord)
      → let h = receive world state request in
        usage_of h.tenant_id h.route_id status latency ≡ some r
        → IsVouched world state request (some r.route_id) r.tenant_id
  usage_of-receive state request status latency r h =
      let (t, i) = usage_of-some _ _ status latency r h in
      subst (λ id. IsVouched world state request id r.tenant_id) i
        (receive-tenant state request r.tenant_id t)

abbrev is_allow_origin : ReplyCall → Bool
is_allow_origin (header_set name value) = text_eq name (lit "Access-Control-Allow-Origin")
is_allow_origin (sent status error retry_after) = false

-- The route that allows the origin of the request.
abbrev pub Allows : List RouteConfig → Request → Option Text → Type 0
Allows routes request route_id =
    (id origin : Text) × (route : RouteConfig) × (cors : CorsConfig) × (route_id ≡ some id)
    × (text_only (header (lit "origin") request.headers) ≡ some origin)
    × (find (has_id id) routes ≡ some route)
    × (route.cors ≡ some cors)
    × (cors.enabled ≡ true)
    × (is_origin_allowed cors origin ≡ true)

-- The onSend hook adds Access-Control-Allow-Origin to a reply only for a request with an Origin header
-- that the CORS section of its route, as it is in force, allows. What the upstream sent under that
-- name is not the hook's.
pub on_send-Allows :
    (routes : List RouteConfig) (request : Request) (route_id : Option Text)
    → any is_allow_origin (on_send routes request route_id) ≡ true
    → Allows routes request route_id
unfolding on_send
on_send-Allows routes request route_id h =
    by_parts (text_only (header (lit "origin") request.headers)) route_id refl refl h
  where
    by_route :
        (id origin : Text) (found : Option RouteConfig)
        → text_only (header (lit "origin") request.headers) ≡ some origin
        → route_id ≡ some id
        → find (has_id id) routes ≡ found
        → any is_allow_origin (cors_calls found origin) ≡ true
        → Allows routes request route_id
    by_route id origin none o i f h = cc
    by_route id origin (some route) o i f h = elim (Option-cases route.cors) [
      | inl c ↦ impossible (rw c at h)
      | inr (cors, c) ↦ elim (Bool-cases (cors.enabled && is_origin_allowed cors origin)) [
        | inl e ↦
            let (on, allowed) = and_true cors.enabled (is_origin_allowed cors origin) e in
            (id, origin, route, cors, i, o, f, c, on, allowed)
        | inr e ↦ impossible (rw (c, e) at h)
      ]
    ]
      where
        impossible : false ≡ true → Allows routes request route_id
        impossible h = cc

    by_parts :
        (o id : Option Text)
        → text_only (header (lit "origin") request.headers) ≡ o
        → route_id ≡ id
        → any is_allow_origin (cors_for routes o id) ≡ true
        → Allows routes request route_id
    by_parts none id o i h = cc
    by_parts (some origin) none o i h = cc
    by_parts (some origin) (some id) o i h = by_route id origin _ o i refl h
