-- ===== src/Admin/Routes/Laws.antt =====
-- What an operator's calls mean for the requests that follow.
use apigateaway.Common.{
  ◌≡◌, refl, ap, sym, subst, ◌∙◌, ℕ, true, Option, none, some, Text, text_eq_refl, Dict, lookup,
  lookup-delete, All,
}
use apigateaway.Config.{api_key}
use apigateaway.Http.{extract_bearer_token}
use apigateaway.Auth.{
  AuthWorld, ApiKeyRecord, CacheRead, cache_read, api_key_cache_key, unauthorized, let_in,
  verify_api_key_hash, cached_answer, api_key_answer, record_answer, lookup_api_key,
  authenticate_request,
}
use apigateaway.Db.{revoke_api_key, find_active_api_key_with_plan}
use apigateaway.Db.Keys.{IsKeyOf, find_active-revoke_api_key}
use apigateaway.Admin.Routes.{
  AdminState, no_content, set_status, suspend_tenant, delete_key, of_revoked, forget,
}

-- The world of a request that comes when the admin state is this one.
abbrev pub reads : Option (Dict Text) → Option (Text → CacheRead)
reads none = none
reads (some cache) = some (λ key. cache_read (lookup key cache))

abbrev pub world_in : AuthWorld → AdminState → ℕ → AuthWorld
world_in world state now = record world {
  redis_get = reads state.redis;
  db_find = some (λ hash. some (find_active_api_key_with_plan state.db hash now));
}

forget-reads :
    (world : AuthWorld) (state : AdminState) (hash : Text) (now : ℕ)
    → cached_answer world (reads (forget hash state.redis)) (api_key_cache_key hash) ≡ none
forget-reads world state hash now = by_cache state.redis
  where
    by_cache :
        (o : Option (Dict Text))
        → cached_answer world (reads (forget hash o)) (api_key_cache_key hash) ≡ none
    by_cache none = refl
    by_cache (some cache) =
        rw
          (
            lookup-delete (api_key_cache_key hash) (api_key_cache_key hash) cache,
            text_eq_refl (api_key_cache_key hash),
          )
          refl

-- A key that neither the cache nor the database knows is refused.
unknown-unauthorized :
    (world : AuthWorld) (raw header : Text) (find : Text → Option (Option ApiKeyRecord))
    → extract_bearer_token (some header) ≡ some raw
    → cached_answer world world.redis_get (api_key_cache_key (world.hash_api_key raw)) ≡ none
    → world.db_find ≡ some find
    → find (world.hash_api_key raw) ≡ some none
    → (authenticate_request world api_key (some header)).0 ≡ unauthorized
unfolding authenticate_request lookup_api_key
unknown-unauthorized world raw header find bearer cached db found =
    rw (authenticate_request, bearer)
      (ap (λ o. (api_key_answer world raw o).0) db ∙ ap (record_answer world raw) looked_up)
  where
    looked_up : (lookup_api_key world raw find).0 ≡ some none
    looked_up = rw (lookup_api_key, cached, found) refl

-- Once an operator's call has revoked an API key, no request with that key is let in, at any time
-- after it and whatever the key's cached record was, where the hashes and the identifiers of the rows
-- are unique.
pub delete_key-unauthorized :
    (world : AuthWorld) (state : AdminState) (id raw header : Text) (now later : ℕ)
    → All (IsKeyOf (world.hash_api_key raw) id) state.db.api_keys
    → (revoke_api_key state.db id now).0 ≡ some (world.hash_api_key raw)
    → extract_bearer_token (some header) ≡ some raw
    → let (answer, state') = delete_key state id now in
      (answer ≡ no_content)
      × ((authenticate_request (world_in world state' later) api_key (some header)).0
          ≡ unauthorized)
unfolding delete_key
delete_key-unauthorized world state id raw header now later unique revoked bearer =
    subst
      (λ answered.
        (answered.0 ≡ no_content)
        × ((authenticate_request (world_in world answered.1 later) api_key (some header)).0
            ≡ unauthorized))
      (sym is_answer)
      (
        refl,
        unknown-unauthorized (world_in world after later) raw header
            (λ hash. some (find_active_api_key_with_plan after.db hash later)) bearer
            (forget-reads (world_in world after later) state (world.hash_api_key raw) now) refl
            (ap some
              (find_active-revoke_api_key state.db (world.hash_api_key raw) id now later unique)),
      )
  where
    after : AdminState
    after = record {
      db = (revoke_api_key state.db id now).1;
      redis = forget (world.hash_api_key raw) state.redis;
    }

    is_answer : delete_key state id now ≡ (no_content, after)
    is_answer = ap (λ o. of_revoked state (o, (revoke_api_key state.db id now).1)) revoked

-- A suspended tenant's key is let in as before while its record is in the cache: the suspension does
-- not clear it.
pub suspend_tenant-let_in :
    (world : AuthWorld) (state : AdminState) (tenant_id raw header : Text) (later : ℕ)
    (r : ApiKeyRecord)
    → extract_bearer_token (some header) ≡ some raw
    → cached_answer
        (world_in world state later)
        (reads state.redis)
        (api_key_cache_key (world.hash_api_key raw))
      ≡ some (some r)
    → verify_api_key_hash world raw r.key_hash ≡ true
    → let state' = (suspend_tenant state tenant_id).1 in
      (authenticate_request (world_in world state' later) api_key (some header)).0
      ≡ let_in (record { tenant_id = some r.tenant_id; scopes = r.scopes; plan = some r.plan })
unfolding set_status authenticate_request lookup_api_key verify_api_key_hash
suspend_tenant-let_in world state tenant_id raw header later r bearer cached verified =
    rw
      (
        set_status, authenticate_request, bearer, lookup_api_key, cached, verify_api_key_hash,
        verified,
      )
      refl
