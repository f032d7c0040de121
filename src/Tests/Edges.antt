-- ===== src/Tests/Edges.antt =====
-- Authentication, usage records and URLs with tokens at concrete inputs.
use apigateaway.Common.{
  ◌↔◌, ℕ, ◌≡◌, refl, Option, none, some, List, [], ◌∷◌, ◌++◌, Bool, true, false, map, Text, lit,
}
use apigateaway.Http.{extract_bearer_token}
use apigateaway.Auth.{
  AuthWorld, ApiKeyRecord, AuthOutcome, CacheRead, lookup_api_key, authenticate_request,
  verify_api_key_hash,
}
use apigateaway.Auth.Laws.{IsVouched, authenticate_request-Vouched}
use apigateaway.Admin.{require_admin_token}
use apigateaway.Admin.Laws.{require_admin_token_lem}
use apigateaway.Usage.{empty_buffer, close, push, flush}
use apigateaway.Usage.Laws.{Operation, pushes, flushes, closes, run, pushed, joined}
use apigateaway.Gateway.Hooks.{UsageRecord}
use apigateaway.Db.Batches.{settle}
use apigateaway.Db.Batches.Laws.{row_of, settle-close}
use mathlib.Core.List.{Perm}
use mathlib.Core.List.Perm
use apigateaway.WebSocket.Url.{access_token_param, extract_query_token, strip_query_param}
use apigateaway.WebSocket.Url.Laws.{extract_query_token-strip_query_param}

abbrev usage : ℕ → UsageRecord
usage status_code = record {
  tenant_id = lit "t1";
  route_id = lit "r1";
  status_code = status_code;
  latency_ms = 7;
}

abbrev history : List (Operation UsageRecord)
history =
    pushes (usage 200)
    ∷ pushes (usage 404)
    ∷ flushes
    ∷ pushes (usage 429)
    ∷ closes
    ∷ pushes (usage 502)
    ∷ []

-- The second insertion ends first, and the first one fails.
abbrev ends : List (List UsageRecord × Bool)
ends =
    ((usage 429 ∷ []), true) ∷ ((usage 200 ∷ usage 404 ∷ []), false) ∷ ((usage 502 ∷ []), true) ∷ []

ends-Perm :
    Perm
      (map (λ (e : List UsageRecord × Bool). e.0) ends)
      (close (run 2 empty_buffer history)).handed_over
unfolding run push flush
ends-Perm = Perm.swap (usage 200 ∷ usage 404 ∷ []) (usage 429 ∷ []) ((usage 502 ∷ []) ∷ [])

settle-close_example :
    Perm
      ((settle ends).rows ++ map row_of (joined (settle ends).failed))
      (map row_of (pushed history))
settle-close_example = settle-close 2 history ends ends-Perm

abbrev stored : ApiKeyRecord
stored = record {
  id = lit "1";
  tenant_id = lit "t1";
  scopes = [];
  key_hash = lit "k1";
  plan = record { limit = 10; window_sec = 60; burst = 10 };
}

-- Digests that are the texts themselves, a cache that holds nothing and a database of one key.
abbrev world_with : Option (Text → CacheRead) → AuthWorld
world_with get = record {
  hash_api_key = λ raw. raw;
  bytes_of_hex = λ digits. digits;
  jwt_verify = λ url token issuer audience. none;
  to_json = λ r. lit "{}";
  of_json = λ text. some stored;
  redis_get = get;
  db_find = some (λ hash. some (some stored));
}

abbrev outcome : AuthOutcome
outcome = record {
  tenant_id = some (lit "t1");
  scopes = [];
  plan = some (record { limit = 10; window_sec = 60; burst = 10 });
}

authenticate_request-Vouched_example :
    (token : Text) × ((extract_bearer_token (some (lit "Bearer k1")) ≡ some token)
      × IsVouched (world_with none) token outcome)
unfolding authenticate_request extract_bearer_token lookup_api_key verify_api_key_hash
authenticate_request-Vouched_example =
    authenticate_request-Vouched (world_with none) (some (lit "Bearer k1")) outcome refl

abbrev decode : Text → Text
decode s = s

extract_query_token-strip_query_param_example :
    extract_query_token decode
      (strip_query_param decode (lit "/ws?access_token=s&x=1") access_token_param)
      access_token_param
    ≡ none
extract_query_token-strip_query_param_example =
    extract_query_token-strip_query_param decode (lit "/ws?access_token=s&x=1") access_token_param

require_admin_token_lem_example :
    (require_admin_token decode (lit "s3") (some (lit "Bearer s3")) ≡ []) ↔ (
      (presented : Text) × ((extract_bearer_token (some (lit "Bearer s3")) ≡ some presented)
        × (decode presented ≡ lit "s3")))
require_admin_token_lem_example = require_admin_token_lem decode (lit "s3") (some (lit "Bearer s3"))
