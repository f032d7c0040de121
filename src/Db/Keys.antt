-- ===== src/Db/Keys.antt =====
-- What a revocation of a key leaves to find.
use apigateaway.Common.{
  ◌≡◌, ◌≢◌, refl, ap, sym, subst, ◌∙◌, ℕ, Bool, true, false, Option, none, some, List, [], ◌∷◌, map,
  Text, text_eq, find, is_some, All, Bool-cases, inl, inr,
}
use apigateaway.Auth.{ApiKeyRecord}
use apigateaway.Db.{
  Plan, Tenant, TenantStatus, suspended, has_tenant_id, has_plan_id, with_status, with_plan,
  with_tenant, is_active, set_tenant_status, Database, ApiKeyRow, is_match, is_revocable,
  revoked_row, with_key, find_active_api_key_with_plan, revoke_api_key,
}

-- A row with the hash is the row of the identifier, as the hashes and the identifiers are unique.
abbrev pub IsKeyOf : Text → Text → ApiKeyRow → Type 0
IsKeyOf hash id k = text_eq k.key_hash hash ≡ true → text_eq k.id id ≡ true

revoked_row-match :
    (hash id : Text) (now later : ℕ) (k : ApiKeyRow)
    → IsKeyOf hash id k
    → is_match hash later (revoked_row id now k) ≡ false
revoked_row-match hash id now later k h = elim (Bool-cases (text_eq k.key_hash hash)) [
  | inr e ↦ elim (Bool-cases (is_revocable id k)) [
    | inl r ↦ rw (r, e) refl
    | inr r ↦ rw (r, e) refl
  ]
  | inl e ↦ elim (Bool-cases (is_some k.revoked_at)) [
    | inl r ↦ let q : is_revocable id k ≡ false = rw (h e, r) refl in rw (q, e, r) refl
    | inr r ↦ let q : is_revocable id k ≡ true = rw (h e, r) refl in rw (q, e) refl
  ]
]

find-revoked_row :
    (hash id : Text) (now later : ℕ) (rows : List ApiKeyRow)
    → All (IsKeyOf hash id) rows
    → find (is_match hash later) (map (revoked_row id now) rows) ≡ none
find-revoked_row hash id now later [] h = refl
find-revoked_row hash id now later (k ∷ rows) (h, hs) =
    rw (revoked_row-match hash id now later k h) (find-revoked_row hash id now later rows hs)

-- After a revocation no query finds the key, whatever the time.
pub find_active-revoke_api_key :
    (db : Database) (hash id : Text) (now later : ℕ)
    → All (IsKeyOf hash id) db.api_keys
    → find_active_api_key_with_plan (revoke_api_key db id now).1 hash later ≡ none
unfolding find_active_api_key_with_plan revoke_api_key
find_active-revoke_api_key db hash id now later h =
    ap (with_key (revoke_api_key db id now).1) (find-revoked_row hash id now later db.api_keys h)

find-with_status :
    (id : Text) (status : TenantStatus) (tenants : List Tenant)
    → All (λ t. has_tenant_id id t ≡ true → t.status ≡ status) (map (with_status id status) tenants)
find-with_status id status [] = tt
find-with_status id status (t ∷ ts) = (
  elim (Bool-cases (text_eq t.id id)) [
    | inl e ↦ rw e (λ h. refl)
    | inr e ↦ rw e (λ h. absurd (sym e ∙ h))
  ],
  find-with_status id status ts,
)
  where
    absurd : false ≡ true → t.status ≡ status
    absurd h = cc

find-All :
    (P : Tenant → Type 0) (test : Tenant → Bool) (ts : List Tenant) (t : Tenant)
    → All P ts
    → find test ts ≡ some t
    → P t × (test t ≡ true)
find-All P test [] t h e = cc
find-All P test (x ∷ xs) t (h, hs) e = elim (Bool-cases (test x)) [
  | inl y ↦ by_same (rw y at e) y
  | inr n ↦ find-All P test xs t hs (rw n at e)
]
  where
    by_same : some x ≡ some t → test x ≡ true → P t × (test t ≡ true)
    by_same q y = subst (λ z. P z × (test z ≡ true)) (inj q) (h, y)
      where
        inj : some x ≡ some t → x ≡ t
        inj q = cc

with_key-active :
    (db : Database) (o : Option ApiKeyRow) (r : ApiKeyRecord)
    → with_key db o ≡ some r
    → (t : Tenant) × (find (has_tenant_id r.tenant_id) db.tenants ≡ some t)
      × (is_active t.status ≡ true)
with_key-active db none r h = cc
with_key-active db (some k) r h = by_tenant (find (has_tenant_id k.tenant_id) db.tenants) refl h
  where
    by_plan : (p : Option Plan) → with_plan k p ≡ some r → k.tenant_id ≡ r.tenant_id
    by_plan none h = cc
    by_plan (some p) h = ap tenant_in h
      where
        tenant_in : Option ApiKeyRecord → Text
        tenant_in none = k.tenant_id
        tenant_in (some r) = r.tenant_id

    by_tenant :
        (o : Option Tenant)
        → find (has_tenant_id k.tenant_id) db.tenants ≡ o
        → with_tenant db k o ≡ some r
        → (t : Tenant) × (find (has_tenant_id r.tenant_id) db.tenants ≡ some t)
          × (is_active t.status ≡ true)
    by_tenant none f h = cc
    by_tenant (some t) f h = elim (Bool-cases (is_active t.status)) [
      | inl e ↦ (
        t,
        subst (λ id. find (has_tenant_id id) db.tenants ≡ some t)
            (by_plan (find (has_plan_id t.plan_id) db.plans) (rw e at h)) f,
        e,
      )
      | inr e ↦ impossible (rw e at h)
    ]
      where
        impossible :
            none ≡ some r
            → (t : Tenant) × (find (has_tenant_id r.tenant_id) db.tenants ≡ some t)
              × (is_active t.status ≡ true)
        impossible h = cc

-- The database gives no key of a tenant that has been suspended, whatever the time.
pub find_active-set_tenant_status :
    (db : Database) (id hash : Text) (now : ℕ) (r : ApiKeyRecord)
    → find_active_api_key_with_plan (set_tenant_status db id suspended).1 hash now ≡ some r
    → r.tenant_id ≢ id
unfolding find_active_api_key_with_plan set_tenant_status
find_active-set_tenant_status db id hash now r h same =
    let (t, f, a) = with_key-active (set_tenant_status db id suspended).1 _ r h in
    let (s, y) =
      find-All (λ t. has_tenant_id id t ≡ true → t.status ≡ suspended) (has_tenant_id id) _ t
        (find-with_status id suspended db.tenants)
        (subst (λ i. find (has_tenant_id i) (map (with_status id suspended) db.tenants) ≡ some t)
          same f) in
    not_active (ap is_active (sym (s y)) ∙ a)
  where
    not_active : false ≡ true → ⊥
    not_active h = cc
