-- ===== src/Auth.antt =====
-- packages/gateway/src/auth/index.ts with packages/core/src/auth. `jwtVerify` of jose, SHA-256, the
-- reading of hexadecimal digits, JSON, Redis and the database are the fields of AuthWorld: each is
-- code outside of the repository, at the moment of the request.
pub mod Laws
use apigateaway.Common.{
  ℕ, ◌+◌, take, Bool, true, false, ◌&&◌, Option, none, some, List, [], ◌∷◌, ◌++◌, if◌then◌else◌,
  ◌==◌, Text, lit, text_eq, split, keep, or_else, length, Dict, lookup,
}
use apigateaway.Config.{JwtConfig, AuthConfig, no_auth, api_key, jwt}
use apigateaway.Http.{is_full, extract_bearer_token}
use apigateaway.RateLimit.Enforce.{TenantPlan}

-- A claim of a token's payload. A list is given with `none` where its item is no string.
pub data Claim : Type 0 where
  claim_null : Claim
  claim_text : Text → Claim
  claim_list : List (Option Text) → Claim
  claim_other : Claim

abbrev pub Payload : Type 0
Payload = Dict Claim

pub record AuthResult : Type 0 where
  pub tenant_id : Text
  pub scopes : List Text

pub record ApiKeyRecord : Type 0 where
  pub id : Text
  pub tenant_id : Text
  pub scopes : List Text
  pub key_hash : Text
  pub plan : TenantPlan

-- What `redis.get` gives: a failure, or the value if there is one.
pub data CacheRead : Type 0 where
  cache_failed : CacheRead
  cache_read : Option Text → CacheRead

pub record AuthWorld : Type 0 where
  -- SHA-256 in hexadecimal, `Buffer.from(text, 'hex')`
  pub hash_api_key : Text → Text
  pub bytes_of_hex : Text → List ℕ
  -- `jwtVerify` with the keys of the URL, the issuer and the audience; none is a throw.
  pub jwt_verify : Text → Text → Option Text → Option Text → Option Payload
  pub to_json : ApiKeyRecord → Text
  pub of_json : Text → Option ApiKeyRecord
  pub redis_get : Option (Text → CacheRead)
  -- `findActiveApiKeyWithPlan`; none is a throw.
  pub db_find : Option (Text → Option (Option ApiKeyRecord))

-- What a request does beside its answer: writes to Redis and to the database, in their order.
pub data AuthEffect : Type 0 where
  cache_set : Text → Text → AuthEffect
  touched : Text → AuthEffect

abbrev pub text_of_claim : Claim → Option Text
text_of_claim claim_null = none
text_of_claim (claim_text t) = some t
text_of_claim (claim_list ts) = none
text_of_claim claim_other = none

-- `payload[claim] ?? payload.sub`
abbrev pub claim_or_sub : Option Claim → Option Claim → Option Claim
claim_or_sub none sub = sub
claim_or_sub (some claim_null) sub = sub
claim_or_sub (some (claim_text t)) sub = some (claim_text t)
claim_or_sub (some (claim_list ts)) sub = some (claim_list ts)
claim_or_sub (some claim_other) sub = some claim_other

abbrev pub text_of : Option Claim → Option Text
text_of none = none
text_of (some c) = text_of_claim c

unfoldable pub read_tenant_id : Payload → Text → Option Text
read_tenant_id payload claim =
    text_of (claim_or_sub (lookup claim payload) (lookup (lit "sub") payload))

abbrev pub texts_of : List (Option Text) → List Text
texts_of [] = []
texts_of (none ∷ ts) = texts_of ts
texts_of (some t ∷ ts) = t ∷ texts_of ts

abbrev pub scopes_of : Option Claim → List Text
scopes_of none = []
scopes_of (some claim_null) = []
scopes_of (some (claim_text t)) = keep is_full (split b' ' t)
scopes_of (some (claim_list ts)) = texts_of ts
scopes_of (some claim_other) = []

unfoldable pub read_scopes : Payload → Text → List Text
read_scopes payload claim = scopes_of (lookup claim payload)

-- `if (!tenantId) return null;`
abbrev pub result_for : Option Text → List Text → Option AuthResult
result_for none scopes = none
result_for (some tenant) scopes =
    if is_full tenant then some (record { tenant_id = tenant; scopes = scopes }) else none

abbrev pub negative_cache_marker : Text
negative_cache_marker = lit "__invalid__"

abbrev pub api_key_cache_key : Text → Text
api_key_cache_key hash = lit "auth:apikey:" ++ hash

module _ (world : AuthWorld) where
  abbrev pub result_of : JwtConfig → Option Payload → Option AuthResult
  result_of options none = none
  result_of options (some payload) =
      result_for (read_tenant_id payload (or_else options.tenant_claim (lit "tenant_id")))
        (read_scopes payload (or_else options.scope_claim (lit "scope")))

  unfoldable pub verify_jwt : Text → JwtConfig → Option AuthResult
  verify_jwt token options =
      result_of options (world.jwt_verify options.jwks_url token options.issuer options.audience)

  -- `actual.length === expected.length && timingSafeEqual(actual, expected)`
  unfoldable pub verify_api_key_hash : Text → Text → Bool
  verify_api_key_hash raw expected_hash =
      let actual = world.bytes_of_hex (world.hash_api_key raw) in
      let expected = world.bytes_of_hex expected_hash in
      length actual == length expected && text_eq actual expected

  -- What the cache says: nothing (also when it fails, or its value is no record), or an answer.
  abbrev pub answer_of_value : Text → Option (Option ApiKeyRecord)
  answer_of_value value =
      if text_eq value negative_cache_marker
      then some none
      else if is_full value
      then elim (world.of_json value) [ none ↦ none | some r ↦ some (some r) ]
      else none

  abbrev pub answer_of_read : CacheRead → Option (Option ApiKeyRecord)
  answer_of_read cache_failed = none
  answer_of_read (cache_read none) = none
  answer_of_read (cache_read (some value)) = answer_of_value value

  abbrev pub cached_answer : Option (Text → CacheRead) → Text → Option (Option ApiKeyRecord)
  cached_answer none key = none
  cached_answer (some get) key = answer_of_read (get key)

  abbrev pub cache_value : Option ApiKeyRecord → Text
  cache_value none = negative_cache_marker
  cache_value (some r) = world.to_json r

  -- `redis.set(...)`, whether or not it then fails.
  abbrev pub cache_effects :
      Option (Text → CacheRead) → Text → Option ApiKeyRecord → List AuthEffect
  cache_effects none key r = []
  cache_effects (some get) key r = cache_set key (cache_value r) ∷ []

  abbrev pub touch_effects : Option ApiKeyRecord → List AuthEffect
  touch_effects none = []
  touch_effects (some r) = touched r.id ∷ []

  -- The answer, none if the database throws, and the effects.
  abbrev pub from_db :
      Text → Option (Option ApiKeyRecord) → Option (Option ApiKeyRecord) × List AuthEffect
  from_db key none = (none, [])
  from_db key (some r) = (some r, cache_effects world.redis_get key r ++ touch_effects r)

  unfoldable pub lookup_api_key :
      Text → (Text → Option (Option ApiKeyRecord)) → Option (Option ApiKeyRecord) × List AuthEffect
  lookup_api_key raw find =
      let hash = world.hash_api_key raw in
      let key = api_key_cache_key hash in
      elim (cached_answer world.redis_get key) [
        | some answer ↦ (some answer, [])
        | none ↦ from_db key (find hash)
      ]

abbrev pub key_prefix : Text
key_prefix = lit "ag_live_"

pub record GeneratedApiKey : Type 0 where
  pub raw : Text
  pub hash : Text
  pub prefix : Text

module _ (world : AuthWorld) where
  -- `random` is the base64url text of the random bytes.
  unfoldable pub generate_api_key : Text → GeneratedApiKey
  generate_api_key random =
      let raw = key_prefix ++ random in
      record { raw = raw; hash = world.hash_api_key raw; prefix = take (length key_prefix + 4) raw }

  -- What `verifyApiKey` makes of the record that its `lookup` finds for the hash.
  abbrev pub verified : Text → Option ApiKeyRecord → Option AuthResult
  verified raw none = none
  verified raw (some r) =
      if verify_api_key_hash world raw r.key_hash
      then some (record { tenant_id = r.tenant_id; scopes = r.scopes })
      else none

  unfoldable pub verify_api_key : Text → (Text → Option ApiKeyRecord) → Option AuthResult
  verify_api_key raw find = verified raw (find (world.hash_api_key raw))

pub record AuthOutcome : Type 0 where
  pub tenant_id : Option Text
  pub scopes : List Text
  pub plan : Option TenantPlan

-- What becomes of a request: let in, refused with a 401, stopped with a 500 because the route needs
-- a database, or a throw.
pub data AuthAnswer : Type 0 where
  let_in : AuthOutcome → AuthAnswer
  unauthorized misconfigured thrown : AuthAnswer

module _ (world : AuthWorld) where
  abbrev pub jwt_answer : Option AuthResult → AuthAnswer
  jwt_answer none = unauthorized
  jwt_answer (some r) =
      let_in (record { tenant_id = some r.tenant_id; scopes = r.scopes; plan = none })

  abbrev pub record_answer : Text → Option (Option ApiKeyRecord) → AuthAnswer
  record_answer token none = thrown
  record_answer token (some none) = unauthorized
  record_answer token (some (some r)) =
      if verify_api_key_hash world token r.key_hash
      then let_in (record { tenant_id = some r.tenant_id; scopes = r.scopes; plan = some r.plan })
      else unauthorized

  abbrev pub api_key_answer :
      Text → Option (Text → Option (Option ApiKeyRecord)) → AuthAnswer × List AuthEffect
  api_key_answer token none = (misconfigured, [])
  api_key_answer token (some find) =
      let (answer, effects) = lookup_api_key world token find in
      (record_answer token answer, effects)

  abbrev pub token_answer : AuthConfig → Text → AuthAnswer × List AuthEffect
  token_answer no_auth token = (let_in (record { tenant_id = none; scopes = []; plan = none }), [])
  token_answer (jwt options) token = (jwt_answer (verify_jwt world token options), [])
  token_answer api_key token = api_key_answer token world.db_find

  -- The request is its Authorization header.
  abbrev pub needs_token : AuthConfig → Bool
  needs_token no_auth = false
  needs_token api_key = true
  needs_token (jwt options) = true

  unfoldable pub authenticate_request : AuthConfig → Option Text → AuthAnswer × List AuthEffect
  authenticate_request auth authorization =
      if needs_token auth
      then elim (extract_bearer_token authorization) [
        | none ↦ (unauthorized, [])
        | some token ↦ token_answer auth token
      ]
      else (let_in (record { tenant_id = none; scopes = []; plan = none }), [])
