-- ===== src/Admin/Routes.antt =====
-- packages/gateway/src/admin/routes.ts: the routes of the operator. What zod makes of a body or a
-- query is an argument, none where it refuses it; Redis, where it is configured, answers.
pub mod Laws
use apigateaway.Common.{ℕ, Option, none, some, List, Text, lit, Dict, delete}
use apigateaway.Auth.{GeneratedApiKey, api_key_cache_key}
use apigateaway.Db.{
  Database, Plan, Tenant, active, suspended, TenantStatus, CreateApiKeyInput, create_plan,
  create_tenant, set_tenant_status, find_tenant_by_id, create_api_key, revoke_api_key,
}

pub record AdminState : Type 0 where
  pub db : Database
  pub redis : Option (Dict Text)

-- A key is shown once, with its identifier and its prefix.
pub data AdminAnswer : Type 0 where
  plan_created : Plan → AdminAnswer
  tenant_created tenant_shown : Tenant → AdminAnswer
  key_created : Text → Text → Text → AdminAnswer
  no_content : AdminAnswer
  purged : Text → ℕ → AdminAnswer
  not_found : Text → AdminAnswer
  invalid_request : AdminAnswer
  internal_error : AdminAnswer

abbrev pub Answered : Type 0
Answered = AdminAnswer × AdminState

abbrev pub with_db : Database → AdminState → AdminState
with_db db state = record state { db = db }

unfoldable pub post_plan : AdminState → Option Plan → Answered
post_plan state none = (invalid_request, state)
post_plan state (some input) = elim (create_plan state.db input) [
  | none ↦ (internal_error, state)
  | some (plan, db) ↦ (plan_created plan, with_db db state)
]

-- The name and the plan of the tenant; `id` is generated.
unfoldable pub post_tenant : AdminState → Option (Text × Text) → Text → Answered
post_tenant state none id = (invalid_request, state)
post_tenant state (some (name, plan_id)) id = elim (create_tenant state.db id name plan_id) [
  | none ↦ (internal_error, state)
  | some (tenant, db) ↦ (tenant_created tenant, with_db db state)
]

abbrev pub shown : Option Tenant → AdminAnswer
shown none = not_found (lit "tenant")
shown (some t) = tenant_shown t

unfoldable pub set_status : TenantStatus → AdminState → Text → Answered
set_status status state id =
    let (tenant, db) = set_tenant_status state.db id status in (shown tenant, with_db db state)

abbrev pub suspend_tenant : AdminState → Text → Answered
suspend_tenant = set_status suspended

abbrev pub activate_tenant : AdminState → Text → Answered
activate_tenant = set_status active

abbrev pub created_key : AdminState → CreateApiKeyInput → GeneratedApiKey → Text → ℕ → Answered
created_key state input key id now = elim (create_api_key state.db input key id now) [
  | none ↦ (internal_error, state)
  | some db ↦ (key_created key.raw id key.prefix, with_db db state)
]

-- The input has the tenant of the path.
unfoldable pub post_key :
    AdminState → Text → Option CreateApiKeyInput → GeneratedApiKey → Text → ℕ → Answered
post_key state tenant_id input key id now = elim (find_tenant_by_id state.db tenant_id) [
  | none ↦ (not_found (lit "tenant"), state)
  | some tenant ↦ elim input [
    | none ↦ (invalid_request, state)
    | some i ↦ created_key state (record i { tenant_id = tenant_id }) key id now
  ]
]

-- `redis.del(apiKeyCacheKey(hash))`, by a Redis that answers
abbrev pub forget : Text → Option (Dict Text) → Option (Dict Text)
forget hash none = none
forget hash (some cache) = some (delete (api_key_cache_key hash) cache)

abbrev pub of_revoked : AdminState → Option Text × Database → Answered
of_revoked state (none, db) = (not_found (lit "key"), with_db db state)
of_revoked state (some hash, db) = (no_content, record { db = db; redis = forget hash state.redis })

unfoldable pub delete_key : AdminState → Text → ℕ → Answered
delete_key state id now = of_revoked state (revoke_api_key state.db id now)

-- The number is that of `purgeCache`, none for a route without a cache.
unfoldable pub delete_cache :
    Option (Text × Option Text) → (Text → Option Text → Option ℕ) → AdminAnswer
delete_cache none purge = invalid_request
delete_cache (some (route_id, path)) purge = elim (purge route_id path) [
  | none ↦ not_found (lit "cache-enabled route")
  | some n ↦ purged route_id n
]
