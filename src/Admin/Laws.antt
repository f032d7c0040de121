-- ===== src/Admin/Laws.antt =====
-- Who passes the operator's check.
use apigateaway.Common.{
  ◌≡◌, ◌↔◌, refl, sym, ◌∙◌, Option, some, List, [], ℕ, Text, eq_of_text_eq, text_eq_refl,
  Bool-cases, Option-cases, inl, inr,
}
use apigateaway.Http.{extract_bearer_token}
use apigateaway.Admin.{verify_admin_token, require_admin_token, refused}

module _ (sha256 : Text → List ℕ) where
  -- An admin request goes on exactly if it presents a bearer token with the digest of the
  -- configured one.
  pub require_admin_token_lem :
      (token : Text) (authorization : Option Text)
      → (require_admin_token sha256 token authorization ≡ []) ↔ (
          (presented : Text) × ((extract_bearer_token authorization ≡ some presented)
            × (sha256 presented ≡ sha256 token)))
  unfolding require_admin_token verify_admin_token
  require_admin_token_lem token authorization = (there, back)
    where
      there :
          require_admin_token sha256 token authorization ≡ []
          → (presented : Text) × ((extract_bearer_token authorization ≡ some presented)
              × (sha256 presented ≡ sha256 token))
      there h = elim (Option-cases (extract_bearer_token authorization)) [
        | inl e ↦
            let stops : require_admin_token sha256 token authorization ≡ refused sha256 =
              rw (e, require_admin_token) refl in
            let clash : refused sha256 ≡ [] = sym stops ∙ h in absurd cc
        | inr (presented, e) ↦ elim (Bool-cases (verify_admin_token sha256 presented token)) [
          | inl f ↦ (presented, (e, eq_of_text_eq (sha256 presented) (sha256 token) f))
          | inr f ↦
              let stops : require_admin_token sha256 token authorization ≡ refused sha256 =
                rw (e, require_admin_token, f) refl in
              let clash : refused sha256 ≡ [] = sym stops ∙ h in absurd cc
        ]
      ]

      back :
          ((presented : Text) × ((extract_bearer_token authorization ≡ some presented)
              × (sha256 presented ≡ sha256 token)))
          → require_admin_token sha256 token authorization ≡ []
      back (presented, (e, f)) =
          rw (e, require_admin_token) (rw f (rw (text_eq_refl (sha256 token)) refl))
