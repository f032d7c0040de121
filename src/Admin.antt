-- ===== src/Admin.antt =====
-- packages/gateway/src/admin/auth.ts: the operator's secret. SHA-256 is a parameter.
pub mod Laws
pub mod Routes
use apigateaway.Common.{
  ℕ, Bool, true, false, Option, none, some, List, [], ◌∷◌, if◌then◌else◌, Text, lit, text_eq,
}
use apigateaway.Http.{ReplyCall, sent, extract_bearer_token}

module _ (sha256 : Text → List ℕ) where
  unfoldable pub verify_admin_token : Text → Text → Bool
  verify_admin_token presented configured = text_eq (sha256 presented) (sha256 configured)

  abbrev pub refused : List ReplyCall
  refused = sent 401 (lit "unauthorized") none ∷ []

  -- The hook: a call on the reply stops the request.
  unfoldable pub require_admin_token : Text → Option Text → List ReplyCall
  require_admin_token token authorization = elim (extract_bearer_token authorization) [
    | none ↦ refused
    | some presented ↦ if verify_admin_token presented token then [] else refused
  ]
