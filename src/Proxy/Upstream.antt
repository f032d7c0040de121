-- ===== src/Proxy/Upstream.antt =====
-- packages/gateway/src/proxy/upstreamUrl.ts and bufferStream.ts. The URL class is a pair of
-- parameters: `new URL(text)`, which may throw, and the `origin` of what it gives.
pub mod Laws
use apigateaway.Common.{ℕ, Option, none, some, List, [], ◌∷◌, ◌++◌, Text}
use apigateaway.Routing.{with_slash}

module _ {U : Type 0} (parse : Text → Option U) (origin : U → Text) where
  abbrev pub upstream_text : Text → Text → Text
  upstream_text origin_text path = origin_text ++ with_slash path

  -- None is a throw.
  unfoldable pub join_upstream_url : Text → Text → Option U
  join_upstream_url target path = elim (parse target) [
    | none ↦ none
    | some url ↦ parse (upstream_text (origin url) path)
  ]

-- The chunks of a stream, as one.
unfoldable pub buffer_stream : List (List ℕ) → List ℕ
buffer_stream [] = []
buffer_stream (chunk ∷ chunks) = chunk ++ buffer_stream chunks
