-- ===== src/RateLimit/Enforce.antt =====
-- packages/gateway/src/ratelimit/index.ts: a route's checks against its store, and the answer to a
-- request that is over a limit. The store is one of memoryStore.ts or the Redis store, whose calls
-- may fail: a state, and a function on it.
pub mod Laws
use apigateaway.Common.{
  ℕ, ◌*◌, Bool, true, false, not, ◌&&◌, ◌||◌, Option, none, some, List, [], ◌∷◌, ◌++◌,
  if◌then◌else◌, Text, lit, find, ceil_div, Dict, insert,
}
use apigateaway.Config.{
  RateLimitConfig, GlobalRateLimitConfig, KeyStrategy, by_tenant, by_ip, by_global, RouteConfig,
}
use apigateaway.Http.{ReplyCall, header_set, sent, number_value, is_full}
use apigateaway.RateLimit.Types.{Policy, RateLimitResult}
use apigateaway.RateLimit.Store.{MemoryStore, create_memory_store, store_consume}

-- `createRateLimitStores` without Redis: the store of each route that has a limit.
unfoldable pub create_rate_limit_stores : List RouteConfig → Dict MemoryStore → Dict MemoryStore
create_rate_limit_stores [] stores = stores
create_rate_limit_stores (route ∷ routes) stores = elim route.rate_limit [
  | none ↦ create_rate_limit_stores routes stores
  | some limit ↦
      create_rate_limit_stores routes (insert route.id (create_memory_store limit.algorithm) stores)
]

pub record TenantPlan : Type 0 where
  pub limit : ℕ
  pub window_sec : ℕ
  pub burst : ℕ

pub record RateLimitContext : Type 0 where
  pub tenant_id : Option Text
  pub tenant_plan : Option TenantPlan

pub record Check : Type 0 where
  pub key : Text
  pub policy : Policy

abbrev pub route_policy : RateLimitConfig → Policy
route_policy c = record { limit = c.limit; window_ms = c.window_sec * 1000; burst = c.burst }

abbrev pub global_policy : GlobalRateLimitConfig → Policy
global_policy g = record { limit = g.limit; window_ms = g.window_sec * 1000; burst = g.burst }

abbrev pub tenant_policy : Policy → Option TenantPlan → Policy
tenant_policy default none = default
tenant_policy default (some plan) = record {
  limit = plan.limit;
  window_ms = plan.window_sec * 1000;
  burst = some plan.burst;
}

abbrev pub ip_key : Text → Text → Text
ip_key ip route_id = lit "ip:" ++ (ip ++ (lit ":route:" ++ route_id))

abbrev pub global_key : Text → Text
global_key route_id = lit "global:route:" ++ route_id

abbrev pub tenant_key : Text → Text → Text
tenant_key tenant_id route_id = lit "tenant:" ++ (tenant_id ++ (lit ":route:" ++ route_id))

abbrev pub to_check : Text → Policy → Check
to_check key policy = record { key = key; policy = policy }

-- `config.global!`: where `is_refined` holds it is there; without it the code throws, which is the
-- missing list of checks.
abbrev pub global_check : Text → Option GlobalRateLimitConfig → Option (List Check)
global_check route_id none = none
global_check route_id (some g) = some (to_check (global_key route_id) (global_policy g) ∷ [])

-- `context.tenantId` is tested for truth, which an empty text has not.
abbrev pub tenant_check : Text → Policy → RateLimitContext → List Check
tenant_check route_id default context = elim context.tenant_id [
  | none ↦ []
  | some tenant ↦
      if is_full tenant
      then to_check (tenant_key tenant route_id) (tenant_policy default context.tenant_plan) ∷ []
      else []
]

abbrev pub check_of :
    Text → RateLimitConfig → Text → RateLimitContext → KeyStrategy → Option (List Check)
check_of route_id c ip context by_ip = some (to_check (ip_key ip route_id) (route_policy c) ∷ [])
check_of route_id c ip context by_global = global_check route_id c.global
check_of route_id c ip context by_tenant = some (tenant_check route_id (route_policy c) context)

abbrev pub both : Option (List Check) → Option (List Check) → Option (List Check)
both none later = none
both (some checks) none = none
both (some checks) (some later) = some (checks ++ later)

-- The loop over `config.keyBy`.
unfoldable pub checks_of :
    Text → RateLimitConfig → Text → RateLimitContext → List KeyStrategy → Option (List Check)
checks_of route_id c ip context [] = some []
checks_of route_id c ip context (s ∷ ss) =
    both (check_of route_id c ip context s) (checks_of route_id c ip context ss)

-- Whether the request may go on, and the calls made on the reply.
pub record Enforced : Type 0 where
  pub passes : Bool
  pub calls : List ReplyCall

abbrev pub retry_after_sec : RateLimitResult → ℕ
retry_after_sec r = ceil_div r.retry_after_ms 1000

abbrev pub limit_headers : RateLimitResult → List ReplyCall
limit_headers r =
    header_set (lit "RateLimit-Limit") (number_value r.limit)
    ∷ header_set (lit "RateLimit-Remaining") (number_value r.remaining)
    ∷ header_set (lit "RateLimit-Reset") (number_value (retry_after_sec r))
    ∷ []

abbrev pub refusal : RateLimitResult → List ReplyCall
refusal r =
    header_set (lit "Retry-After") (number_value (retry_after_sec r))
    ∷ sent 429 (lit "rate_limit_exceeded") (some (retry_after_sec r))
    ∷ []

abbrev pub is_rejected : RateLimitResult → Bool
is_rejected r = not r.allowed

-- `results[0]!` stands on `checks.length > 0`.
abbrev pub report : Option RateLimitResult → List RateLimitResult → Enforced
report none [] = record { passes = true; calls = [] }
report none (r ∷ rs) = record { passes = true; calls = limit_headers r }
report (some r) rs = record { passes = false; calls = limit_headers r ++ refusal r }

abbrev pub unavailable : Bool → Enforced
unavailable true = record { passes = true; calls = [] }
unavailable false = record {
  passes = false;
  calls = sent 503 (lit "rate_limit_unavailable") none ∷ [];
}

abbrev pub decide : Bool → Option (List RateLimitResult) → Enforced
decide fail_open none = unavailable fail_open
decide fail_open (some results) = report (find is_rejected results) results

module _ {S : Type 0} (consume : S → Text → Policy → Option RateLimitResult × S) where
  abbrev pub add_result :
      Option RateLimitResult → Option (List RateLimitResult) → Option (List RateLimitResult)
  add_result none later = none
  add_result (some r) none = none
  add_result (some r) (some rs) = some (r ∷ rs)

  -- `Promise.all`: every check is started, and one that fails makes the whole fail.
  unfoldable pub consume_all : S → List Check → Option (List RateLimitResult) × S
  consume_all store [] = (some [], store)
  consume_all store (check ∷ checks) =
      let (r, store') = consume store check.key check.policy in
      let (rs, store'') = consume_all store' checks in (add_result r rs, store'')

  abbrev pub run_checks : Bool → S → List Check → Enforced × S
  run_checks fail_open store [] = (record { passes = true; calls = [] }, store)
  run_checks fail_open store (check ∷ checks) =
      let (results, store') = consume_all store (check ∷ checks) in
      (decide fail_open results, store')

  abbrev pub enforce_checks : Bool → S → Option (List Check) → Option (Enforced × S)
  enforce_checks fail_open store none = none
  enforce_checks fail_open store (some checks) = some (run_checks fail_open store checks)

  -- The request is its address; none is a throw.
  unfoldable pub enforce_rate_limit :
      S → RouteConfig → Text → RateLimitContext → Bool → Option (Enforced × S)
  enforce_rate_limit store route ip context fail_open = elim route.rate_limit [
    | none ↦ some (record { passes = true; calls = [] }, store)
    | some c ↦ enforce_checks fail_open store (checks_of route.id c ip context c.key_by)
  ]
