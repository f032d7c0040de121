-- ===== src/Tests/Operators.antt =====
-- The operator's routes at concrete inputs: one plan, one tenant and one API key.
use apigateaway.Common.{◌≡◌, ◌≢◌, refl, none, some, [], ◌∷◌, lit}
use apigateaway.Config.{api_key}
use apigateaway.Http.{extract_bearer_token}
use apigateaway.Auth.{
  AuthWorld, ApiKeyRecord, unauthorized, let_in, authenticate_request, verify_api_key_hash,
  api_key_cache_key,
}
use apigateaway.Db.{
  Database, ApiKeyRow, active, revoke_api_key, set_tenant_status, find_active_api_key_with_plan,
}
use apigateaway.Db.Keys.{find_active-set_tenant_status}
use apigateaway.Admin.Routes.{AdminState, no_content, delete_key, suspend_tenant}
use apigateaway.Admin.Routes.Laws.{world_in, delete_key-unauthorized, suspend_tenant-let_in}
use apigateaway.Tests.Pipeline.{auth_world}

abbrev row : ApiKeyRow
row = record {
  id = lit "1";
  tenant_id = lit "t1";
  key_hash = lit "k1";
  key_prefix = lit "k";
  name = none;
  scopes = [];
  last_used_at = none;
  expires_at = none;
  revoked_at = none;
  created_at = 0;
}

abbrev db : Database
db = record {
  plans =
      record {
        id = lit "p";
        name = lit "free";
        rate_limit = 10;
        window_sec = 60;
        burst = 10;
        quota_monthly = none;
      }
      ∷ [];
  tenants =
      record { id = lit "t1"; name = lit "one"; plan_id = lit "p"; status = active }
      ∷ record { id = lit "t2"; name = lit "two"; plan_id = lit "p"; status = active }
      ∷ [];
  api_keys = row ∷ [];
}

abbrev record_of_row : ApiKeyRecord
record_of_row = record {
  id = lit "1";
  tenant_id = lit "t1";
  scopes = [];
  key_hash = lit "k1";
  plan = record { limit = 10; window_sec = 60; burst = 10 };
}

-- JSON that reads every text as the key's record.
abbrev reading_world : AuthWorld
reading_world = record auth_world { of_json = λ text. some record_of_row }

abbrev state : AdminState
state = record { db = db; redis = some ((api_key_cache_key (lit "k1"), lit "{}") ∷ []) }

delete_key-unauthorized_example :
    let (answer, state') = delete_key state (lit "1") 5 in
    (answer ≡ no_content)
    × ((authenticate_request (world_in reading_world state' 6) api_key (some (lit "Bearer k1"))).0
        ≡ unauthorized)
unfolding revoke_api_key extract_bearer_token
delete_key-unauthorized_example =
    delete_key-unauthorized reading_world state (lit "1") (lit "k1") (lit "Bearer k1") 5 6
      (λ h. refl, tt) refl refl

suspend_tenant-let_in_example :
    let state' = (suspend_tenant state (lit "t1")).1 in
    (authenticate_request (world_in reading_world state' 6) api_key (some (lit "Bearer k1"))).0
    ≡ let_in (record {
      tenant_id = some (lit "t1");
      scopes = [];
      plan = some (record { limit = 10; window_sec = 60; burst = 10 });
    })
unfolding extract_bearer_token verify_api_key_hash
suspend_tenant-let_in_example =
    suspend_tenant-let_in reading_world state (lit "t1") (lit "k1") (lit "Bearer k1") 6
      record_of_row refl refl refl

find_active-set_tenant_status_example : lit "t1" ≢ lit "t2"
unfolding find_active_api_key_with_plan set_tenant_status
find_active-set_tenant_status_example =
    find_active-set_tenant_status db (lit "t2") (lit "k1") 5 record_of_row refl
