-- ===== src/Proxy/Upstream/Laws.antt =====
-- The client's path cannot change the host.
use apigateaway.Common.{
  ◌≡◌, refl, ap, Option, some, ◌++◌, Text, lit, starts_with, append-drop_of_starts_with, drop,
  Bool-cases, inl, inr,
}
use apigateaway.Routing.{with_slash}
use apigateaway.Proxy.Upstream.{join_upstream_url}

with_slash_first : (path : Text) → (rest : Text) × (with_slash path ≡ lit "/" ++ rest)
with_slash_first path = elim (Bool-cases (starts_with path (lit "/"))) [
  | inl e ↦ rw e (drop 1 path, append-drop_of_starts_with path (lit "/") e)
  | inr e ↦ rw e (path, refl)
]

-- Whatever path a client asks for, the URL sent upstream is what parses from the target's origin
-- with a slash right behind it: no path can continue the host.
join_upstream_url_lem :
    {U : Type 0} (parse : Text → Option U) (origin : U → Text) (target path : Text) (url : U)
    → parse target ≡ some url
    → (rest : Text) × (join_upstream_url parse origin target path
        ≡ parse (origin url ++ (lit "/" ++ rest)))
unfolding join_upstream_url
join_upstream_url_lem parse origin target path url e =
    let (rest, at) = with_slash_first path in
    (rest, rw (e, join_upstream_url) (ap (λ (t : Text). parse (origin url ++ t)) at))
