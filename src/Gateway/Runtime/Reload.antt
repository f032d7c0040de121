-- ===== src/Gateway/Runtime/Reload.antt =====
-- What a reload of the configuration keeps.
use apigateaway.Common.{
  ◌≡◌, refl, ap, sym, Bool, true, false, not, Option, none, some, Bool-cases, inl, inr, eq_of_test,
  and_true, text_eq_iff, ◌⊎◌,
}
use apigateaway.Config.{GatewayConfig, ServerConfig, RedisConfig, DbConfig, AdminConfig}
use apigateaway.Gateway.Runtime.{
  RuntimeState, same_bool, same_server, same_optional, same_redis, same_db, same_admin,
  assert_hot_reloadable, lacks_db, reload, build_runtime_state,
}

pub record SameSections (a b : GatewayConfig) : Type 0 where
  pub server : a.server ≡ b.server
  pub redis : a.redis ≡ b.redis
  pub db : a.db ≡ b.db
  pub admin : a.admin ≡ b.admin

same_bool_lem : (a b : Bool) → same_bool a b ≡ true → a ≡ b
same_bool_lem true b h = sym h
same_bool_lem false true h = cc
same_bool_lem false false h = refl

same_optional_lem :
    {A : Type 0} (same : A → A → Bool) (sound : (a b : A) → same a b ≡ true → a ≡ b)
    (a b : Option A)
    → same_optional same a b ≡ true
    → a ≡ b
same_optional_lem same sound none none h = refl
same_optional_lem same sound none (some b) h = cc
same_optional_lem same sound (some a) none h = cc
same_optional_lem same sound (some a) (some b) h = ap some (sound a b h)

same_redis_lem : (a b : RedisConfig) → same_redis a b ≡ true → a ≡ b
same_redis_lem a b h =
    let (u, f) = and_true _ _ h in
    let p = (text_eq_iff a.url b.url).0 u in
    let q = same_bool_lem a.fail_open b.fail_open f in λ i. record { url = p i; fail_open = q i }

same_db_lem : (a b : DbConfig) → same_db a b ≡ true → a ≡ b
same_db_lem a b h = let p = (text_eq_iff a.url b.url).0 h in λ i. record { url = p i }

same_admin_lem : (a b : AdminConfig) → same_admin a b ≡ true → a ≡ b
same_admin_lem a b h = let p = (text_eq_iff a.token b.token).0 h in λ i. record { token = p i }

same_server_lem : (a b : ServerConfig) → same_server a b ≡ true → a ≡ b
same_server_lem a b h =
    let (k4, h5) = and_true _ _ h in
    let (k3, h4) = and_true _ _ k4 in
    let (k2, h3) = and_true _ _ k3 in
    let (k1, h2) = and_true _ _ k2 in
    let (h0, h1) = and_true _ _ k1 in
    let p0 = eq_of_test a.port b.port h0 in
    let p1 = eq_of_test a.trust_proxy_hops b.trust_proxy_hops h1 in
    let p2 = eq_of_test a.max_body_bytes b.max_body_bytes h2 in
    let p3 = eq_of_test a.max_header_count b.max_header_count h3 in
    let p4 = eq_of_test a.request_timeout_ms b.request_timeout_ms h4 in
    let p5 = same_bool_lem a.watch b.watch h5 in
    λ i. record {
      port = p0 i;
      trust_proxy_hops = p1 i;
      max_body_bytes = p2 i;
      max_header_count = p3 i;
      request_timeout_ms = p4 i;
      watch = p5 i;
    }

-- A configuration that the check takes has the sections of the old one, and a database if a route
-- needs one.
pub assert_hot_reloadable-SameSections :
    (old new : GatewayConfig)
    → assert_hot_reloadable old new ≡ true
    → SameSections old new × (lacks_db new ≡ false)
unfolding assert_hot_reloadable
assert_hot_reloadable-SameSections old new h =
    let (h3, l) = and_true _ _ h in
    let (h2, a) = and_true _ _ h3 in
    let (h1, d) = and_true _ _ h2 in
    let (s, r) = and_true _ _ h1 in
    (
      record {
        server = same_server_lem old.server new.server s;
        redis = same_optional_lem same_redis same_redis_lem old.redis new.redis r;
        db = same_optional_lem same_db same_db_lem old.db new.db d;
        admin = same_optional_lem same_admin same_admin_lem old.admin new.admin a;
      },
      true-not (lacks_db new) l,
    )
  where
    true-not : (b : Bool) → not b ≡ true → b ≡ false
    true-not true e = cc
    true-not false e = refl

-- A reload that gives an exception leaves the state as it was. One that does not has put the new
-- configuration in force, in which the server, Redis, database and admin sections are the old ones,
-- and a database is configured if a route needs one.
pub reload-SameSections :
    (state : RuntimeState) (config : GatewayConfig)
    → let (state', refused) = reload state config in
      ((refused ≡ true) × (state' ≡ state))
      ⊎ ((refused ≡ false)
          × (state'.config ≡ config)
          × SameSections state.config config
          × (lacks_db config ≡ false))
unfolding reload build_runtime_state
reload-SameSections state config = elim (Bool-cases (assert_hot_reloadable state.config config)) [
  | inl e ↦
      rw (e, reload)
        (let (s, l) = assert_hot_reloadable-SameSections state.config config e in
          inr (refl, refl, s, l))
  | inr e ↦ rw (e, reload) (inl (refl, refl))
]
