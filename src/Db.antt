-- ===== src/Db.antt =====
-- packages/gateway/src/db/repositories: what the statements do to the tables of
-- packages/gateway/migrations. PostgreSQL runs a statement as a whole, so that it is a function of
-- the tables; the identifiers it generates and the time of `now()` are arguments. `RETURNING` gives
-- the rows of the statement.
pub mod Batches
pub mod Keys
use apigateaway.Common.{
  ℕ, Bool, true, false, not, ◌&&◌, ◌||◌, ◌<?◌, Option, none, some, List, [], ◌∷◌, ◌++◌, map,
  if◌then◌else◌, Text, text_eq, find, is_some,
}
use apigateaway.RateLimit.Enforce.{TenantPlan}
use apigateaway.Auth.{ApiKeyRecord, GeneratedApiKey}

pub data TenantStatus : Type 0 where
  active suspended : TenantStatus

pub record Plan : Type 0 where
  pub id : Text
  pub name : Text
  pub rate_limit : ℕ
  pub window_sec : ℕ
  pub burst : ℕ
  pub quota_monthly : Option ℕ

pub record Tenant : Type 0 where
  pub id : Text
  pub name : Text
  pub plan_id : Text
  pub status : TenantStatus

pub record ApiKeyRow : Type 0 where
  pub id : Text
  pub tenant_id : Text
  pub key_hash : Text
  pub key_prefix : Text
  pub name : Option Text
  pub scopes : List Text
  pub last_used_at : Option ℕ
  pub expires_at : Option ℕ
  pub revoked_at : Option ℕ
  pub created_at : ℕ

-- The rows in the order in which they came.
pub record Database : Type 0 where
  pub plans : List Plan
  pub tenants : List Tenant
  pub api_keys : List ApiKeyRow

abbrev pub has_plan_id : Text → Plan → Bool
has_plan_id id p = text_eq p.id id

abbrev pub has_tenant_id : Text → Tenant → Bool
has_tenant_id id t = text_eq t.id id

-- `name` is unique; none is the exception.
unfoldable pub create_plan : Database → Plan → Option (Plan × Database)
create_plan db plan = elim (find (λ (p : Plan). text_eq p.name plan.name) db.plans) [
  | some p ↦ none
  | none ↦ some (plan, record db { plans = db.plans ++ plan ∷ [] })
]

abbrev pub find_plan_by_name : Database → Text → Option Plan
find_plan_by_name db name = find (λ (p : Plan). text_eq p.name name) db.plans

-- `plan_id` refers to a plan; none is the exception.
unfoldable pub create_tenant : Database → Text → Text → Text → Option (Tenant × Database)
create_tenant db id name plan_id = elim (find (has_plan_id plan_id) db.plans) [
  | none ↦ none
  | some p ↦
      let tenant : Tenant = record { id = id; name = name; plan_id = plan_id; status = active } in
      some (tenant, record db { tenants = db.tenants ++ tenant ∷ [] })
]

unfoldable pub find_tenant_by_id : Database → Text → Option Tenant
find_tenant_by_id db id = find (has_tenant_id id) db.tenants

abbrev pub with_status : Text → TenantStatus → Tenant → Tenant
with_status id status t = if text_eq t.id id then record t { status = status } else t

-- The row of the statement is the tenant as it is then.
unfoldable pub set_tenant_status : Database → Text → TenantStatus → Option Tenant × Database
set_tenant_status db id status =
    let tenants' = map (with_status id status) db.tenants in
    (find (has_tenant_id id) tenants', record db { tenants = tenants' })

pub record CreateApiKeyInput : Type 0 where
  pub tenant_id : Text
  pub name : Option Text
  pub scopes : List Text
  pub expires_at : Option ℕ

-- `tenant_id` refers to a tenant, and `key_hash` is unique; none is the exception.
unfoldable pub create_api_key :
    Database → CreateApiKeyInput → GeneratedApiKey → Text → ℕ → Option Database
create_api_key db input key id now =
    if is_some (find (has_tenant_id input.tenant_id) db.tenants)
      && not (is_some (find (λ (k : ApiKeyRow). text_eq k.key_hash key.hash) db.api_keys))
    then some (record db {
      api_keys =
          db.api_keys
          ++ record {
            id = id;
            tenant_id = input.tenant_id;
            key_hash = key.hash;
            key_prefix = key.prefix;
            name = input.name;
            scopes = input.scopes;
            last_used_at = none;
            expires_at = input.expires_at;
            revoked_at = none;
            created_at = now;
          }
            ∷ [];
    })
    else none

-- `ak.expires_at IS NULL OR ak.expires_at > now()`
abbrev pub is_unexpired : Option ℕ → ℕ → Bool
is_unexpired none now = true
is_unexpired (some expires_at) now = now <? expires_at

abbrev pub is_active : TenantStatus → Bool
is_active active = true
is_active suspended = false

abbrev pub is_match : Text → ℕ → ApiKeyRow → Bool
is_match hash now k =
    text_eq k.key_hash hash && not (is_some k.revoked_at) && is_unexpired k.expires_at now

abbrev pub plan_of : Plan → TenantPlan
plan_of p = record { limit = p.rate_limit; window_sec = p.window_sec; burst = p.burst }

-- The joins with the tenant and its plan.
abbrev pub with_plan : ApiKeyRow → Option Plan → Option ApiKeyRecord
with_plan k none = none
with_plan k (some p) = some (record {
  id = k.id;
  tenant_id = k.tenant_id;
  scopes = k.scopes;
  key_hash = k.key_hash;
  plan = plan_of p;
})

abbrev pub with_tenant : Database → ApiKeyRow → Option Tenant → Option ApiKeyRecord
with_tenant db k none = none
with_tenant db k (some t) =
    if is_active t.status then with_plan k (find (has_plan_id t.plan_id) db.plans) else none

abbrev pub with_key : Database → Option ApiKeyRow → Option ApiKeyRecord
with_key db none = none
with_key db (some k) = with_tenant db k (find (has_tenant_id k.tenant_id) db.tenants)

-- A hash is that of one row, so that the first row is all.
unfoldable pub find_active_api_key_with_plan : Database → Text → ℕ → Option ApiKeyRecord
find_active_api_key_with_plan db hash now = with_key db (find (is_match hash now) db.api_keys)

abbrev pub touched_row : Text → ℕ → ApiKeyRow → ApiKeyRow
touched_row id now k = if text_eq k.id id then record k { last_used_at = some now } else k

unfoldable pub touch_api_key_last_used : Database → Text → ℕ → Database
touch_api_key_last_used db id now = record db { api_keys = map (touched_row id now) db.api_keys }

-- `WHERE id = $1 AND revoked_at IS NULL`
abbrev pub is_revocable : Text → ApiKeyRow → Bool
is_revocable id k = text_eq k.id id && not (is_some k.revoked_at)

abbrev pub revoked_row : Text → ℕ → ApiKeyRow → ApiKeyRow
revoked_row id now k = if is_revocable id k then record k { revoked_at = some now } else k

abbrev pub hash_of : Option ApiKeyRow → Option Text
hash_of none = none
hash_of (some k) = some k.key_hash

-- The hash of the key, if one is revoked.
unfoldable pub revoke_api_key : Database → Text → ℕ → Option Text × Database
revoke_api_key db id now = (
  hash_of (find (is_revocable id) db.api_keys),
  record db { api_keys = map (revoked_row id now) db.api_keys },
)
