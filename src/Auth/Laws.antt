-- ===== src/Auth/Laws.antt =====
-- Who is let in, and what the cache of keys may say.
use apigateaway.Common.{
  ◌≡◌, ◌≢◌, ◌⊎◌, refl, sym, subst, ◌∙◌, Bool, true, false, ◌&&◌, Option, none, some, [], Text,
  text_eq, eq_of_text_eq, text_eq_refl, ==_refl, arith, Bool-cases, Option-cases, inl, inr,
}
use apigateaway.Config.{api_key}
use apigateaway.Http.{is_full, extract_bearer_token}
use apigateaway.Auth.{
  AuthWorld, ApiKeyRecord, AuthOutcome, AuthAnswer, let_in, unauthorized, misconfigured, thrown,
  CacheRead, cache_read, cache_failed, verify_api_key_hash, lookup_api_key, authenticate_request,
  answer_of_value, answer_of_read, cached_answer, record_answer, cache_value, negative_cache_marker,
  api_key_cache_key, from_db, api_key_answer, generate_api_key, verify_api_key,
}

and_right : (a b : Bool) → (a && b) ≡ true → b ≡ true
and_right true b h = h
and_right false true h = refl
and_right false false h = h

module _ (world : AuthWorld) where
  -- The record is what the value cached for the token's hash says, or what the database finds for
  -- that hash.
  abbrev pub IsFound : Text → ApiKeyRecord → Type 0
  IsFound token r =
      ((get : Text → CacheRead) × (value : Text) × (world.redis_get ≡ some get)
        × (get (api_key_cache_key (world.hash_api_key token)) ≡ cache_read (some value))
        × (value ≢ negative_cache_marker)
        × (world.of_json value ≡ some r))
      ⊎ ((find : Text → Option (Option ApiKeyRecord)) × (world.db_find ≡ some find)
          × (find (world.hash_api_key token) ≡ some (some r)))

  -- A record was found for the token, the token's digest is the record's, and the rest is the
  -- record's.
  abbrev pub IsVouched : Text → AuthOutcome → Type 0
  IsVouched token out =
      (r : ApiKeyRecord) × (IsFound token r)
      × (world.bytes_of_hex (world.hash_api_key token) ≡ world.bytes_of_hex r.key_hash)
      × (out ≡ record { tenant_id = some r.tenant_id; scopes = r.scopes; plan = some r.plan })

  abbrev VouchedAnswer : Text → AuthAnswer → Type 0
  VouchedAnswer token (let_in out) = IsVouched token out
  VouchedAnswer token unauthorized = Unit
  VouchedAnswer token misconfigured = Unit
  VouchedAnswer token thrown = Unit

  -- The record of an answer, if it has one, was found.
  abbrev FoundAnswer : Text → Option (Option ApiKeyRecord) → Type 0
  FoundAnswer token none = Unit
  FoundAnswer token (some none) = Unit
  FoundAnswer token (some (some r)) = IsFound token r

  answer_of_value-some :
      (value : Text) (answer : Option ApiKeyRecord)
      → answer_of_value world value ≡ some answer
      → (answer ≡ none) ⊎ ((value ≢ negative_cache_marker) × (world.of_json value ≡ answer))
  answer_of_value-some value answer h = elim (Bool-cases (text_eq value negative_cache_marker)) [
    | inl e ↦ inl (some_inj (sym (rw e at h)))
    | inr e ↦ elim (Bool-cases (is_full value)) [
      | inl f ↦ elim (Option-cases (world.of_json value)) [
        | inl j ↦ absurd (no_some (rw (e, f, j) at h))
        | inr (r, j) ↦ inr (apart e, j ∙ some_inj (rw (e, f, j) at h))
      ]
      | inr f ↦ absurd (no_some (rw (e, f) at h))
    ]
  ]
    where
      some_inj : {a b : Option ApiKeyRecord} → some a ≡ some b → a ≡ b
      some_inj q = cc

      no_some : {b : Option ApiKeyRecord} → none ≡ some b → ⊥
      no_some q = cc

      apart : text_eq value negative_cache_marker ≡ false → value ≢ negative_cache_marker
      apart e same = ground (arith, text_eq_refl value)

  FoundAnswer-cached :
      (token : Text) (answer : Option ApiKeyRecord)
      → cached_answer world world.redis_get (api_key_cache_key (world.hash_api_key token))
        ≡ some answer
      → FoundAnswer token (some answer)
  FoundAnswer-cached token none h = tt
  FoundAnswer-cached token (some r) h = elim (Option-cases world.redis_get) [
    | inl e ↦ absurd (of_none (rw e at h))
    | inr (get, e) ↦
        of_read get e (get (api_key_cache_key (world.hash_api_key token))) refl (rw e at h)
  ]
    where
      of_none : none ≡ some (some r) → ⊥
      of_none q = cc

      of_read :
          (get : Text → CacheRead)
          → world.redis_get ≡ some get
          → (read : CacheRead) → get (api_key_cache_key (world.hash_api_key token)) ≡ read
          → answer_of_read world read ≡ some (some r)
          → IsFound token r
      of_read get e cache_failed g q = absurd (of_none q)
      of_read get e (cache_read none) g q = absurd (of_none q)
      of_read get e (cache_read (some value)) g q = elim (answer_of_value-some value (some r) q) [
        | inl n ↦ absurd cc
        | inr (apart, j) ↦ inl (get, value, e, g, apart, j)
      ]

  lookup_api_key-FoundAnswer :
      (token : Text) (find : Text → Option (Option ApiKeyRecord))
      → world.db_find ≡ some find
      → FoundAnswer token (lookup_api_key world token find).0
  unfolding lookup_api_key
  lookup_api_key-FoundAnswer token find d =
      elim (Option-cases
        (cached_answer world world.redis_get (api_key_cache_key (world.hash_api_key token)))) [
          | inr (answer, c) ↦ rw (c, lookup_api_key) (FoundAnswer-cached token answer c)
          | inl c ↦ rw (c, lookup_api_key) (of_answer (find (world.hash_api_key token)) refl)
        ]
    where
      of_answer :
          (answer : Option (Option ApiKeyRecord))
          → find (world.hash_api_key token) ≡ answer
          → FoundAnswer token
              (from_db world (api_key_cache_key (world.hash_api_key token)) answer).0
      of_answer none e = tt
      of_answer (some none) e = tt
      of_answer (some (some r)) e = inr (find, d, e)

  record_answer-Vouched :
      (token : Text) (answer : Option (Option ApiKeyRecord))
      → FoundAnswer token answer
      → VouchedAnswer token (record_answer world token answer)
  unfolding verify_api_key_hash
  record_answer-Vouched token none f = tt
  record_answer-Vouched token (some none) f = tt
  record_answer-Vouched token (some (some r)) f =
      elim (Bool-cases (verify_api_key_hash world token r.key_hash)) [
        | inl e ↦ rw e (r, f, eq_of_text_eq _ _ (and_right _ _ e), refl)
        | inr e ↦ rw e tt
      ]

  api_key_answer-Vouched :
      (token : Text) (find : Option (Text → Option (Option ApiKeyRecord)))
      → world.db_find ≡ find
      → VouchedAnswer token (api_key_answer world token find).0
  api_key_answer-Vouched token none d = tt
  api_key_answer-Vouched token (some find) d =
      record_answer-Vouched token (lookup_api_key world token find).0
        (lookup_api_key-FoundAnswer token find d)

  -- A request that a route with API keys lets in carries a bearer token for whose hash the cache or
  -- the database gave a record; the digest of the token is that of the record, and the request is let
  -- in with the tenant, the scopes and the plan of that record. So it is whatever the cache, the
  -- database and their failures.
  pub authenticate_request-Vouched :
      (header : Option Text) (out : AuthOutcome)
      → (authenticate_request world api_key header).0 ≡ let_in out
      → (token : Text) × ((extract_bearer_token header ≡ some token) × IsVouched token out)
  unfolding authenticate_request
  authenticate_request-Vouched header out h = elim (Option-cases (extract_bearer_token header)) [
    | inl e ↦
        let none_in : (authenticate_request world api_key header).0 ≡ unauthorized =
          rw (e, authenticate_request) refl in
        let clash : unauthorized ≡ let_in out = sym none_in ∙ h in absurd cc
    | inr (token, e) ↦
        let whole : (authenticate_request world api_key header).0
            ≡ (api_key_answer world token world.db_find).0 =
          rw (e, authenticate_request) refl in
        (
          token,
          (
            e,
            subst (VouchedAnswer token) (sym whole ∙ h)
                (api_key_answer-Vouched token world.db_find refl),
          ),
        )
  ]

  -- JSON gives the record of an answer back, and writes it neither as the marker nor as an empty
  -- text.
  abbrev pub IsReadBack : Option ApiKeyRecord → Type 0
  IsReadBack none = Unit
  IsReadBack (some r) =
      (world.of_json (world.to_json r) ≡ some r)
      × ((text_eq (world.to_json r) negative_cache_marker ≡ false)
          × (is_full (world.to_json r) ≡ true))

  -- What a lookup writes to the cache, be it a record that JSON reads back or that there is none, is
  -- the answer of a later lookup that reads it, which asks no database and writes nothing.
  lookup_api_key-cache_value :
      (raw : Text) (find : Text → Option (Option ApiKeyRecord)) (get : Text → CacheRead)
      (answer : Option ApiKeyRecord)
      → IsReadBack answer
      → world.redis_get ≡ some get
      → get (api_key_cache_key (world.hash_api_key raw))
        ≡ cache_read (some (cache_value world answer))
      → lookup_api_key world raw find ≡ (some answer, [])
  unfolding lookup_api_key
  lookup_api_key-cache_value raw find get none back e h = rw (e, lookup_api_key) (rw h refl)
  lookup_api_key-cache_value raw find get (some r) (back, (apart, full)) e h =
      rw (e, lookup_api_key) (rw h (rw (apart, full, back) refl))

  -- A cache that fails changes no answer: it is the database's.
  lookup_api_key-failed :
      (raw : Text) (find : Text → Option (Option ApiKeyRecord)) (get : Text → CacheRead)
      → world.redis_get ≡ some get
      → get (api_key_cache_key (world.hash_api_key raw)) ≡ cache_failed
      → (lookup_api_key world raw find).0 ≡ find (world.hash_api_key raw)
  unfolding lookup_api_key
  lookup_api_key-failed raw find get e h =
      rw (e, lookup_api_key) (rw h (of_answer (find (world.hash_api_key raw))))
    where
      of_answer :
          (answer : Option (Option ApiKeyRecord))
          → (from_db world (api_key_cache_key (world.hash_api_key raw)) answer).0 ≡ answer
      of_answer none = refl
      of_answer (some r) = refl

  -- A key that has just been generated is verified, as the tenant it is stored for, by any lookup
  -- that finds its record under its hash.
  verify_api_key-generate_api_key :
      (random : Text) (find : Text → Option ApiKeyRecord) (r : ApiKeyRecord)
      → r.key_hash ≡ (generate_api_key world random).hash
      → find (generate_api_key world random).hash ≡ some r
      → verify_api_key world (generate_api_key world random).raw find
        ≡ some (record { tenant_id = r.tenant_id; scopes = r.scopes })
  unfolding verify_api_key generate_api_key verify_api_key_hash
  verify_api_key-generate_api_key random find r h e =
      rw e (rw h (rw (text_eq_refl _, ==_refl _) refl))
