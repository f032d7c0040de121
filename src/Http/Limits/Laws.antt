-- ===== src/Http/Limits/Laws.antt =====
-- The limit on a streamed body.
use apigateaway.Common.{
  ℕ, ◌+◌, ◌≤◌, ◌<?◌, ◌≡◌, refl, ap, ◌∙◌, Bool, true, false, List, [], ◌∷◌, ◌++◌, length, Bool-cases,
  inl, inr, if◌then◌else◌, arith,
}
use apigateaway.Http.Limits.{Chunk, Limited, limit_from, limit_body_size}

unfoldable size : List Chunk → ℕ
size [] = 0
size (chunk ∷ chunks) = length chunk + size chunks

IsCut : ℕ → ℕ → List Chunk → Limited → Type 0
IsCut seen max chunks out =
    (out.too_large ≡ (max <? (seen + size chunks)))
    × (((seen + size out.passed_on) ≤ max)
        × ((rest : List Chunk) × ((if out.too_large then out.passed_on ++ rest else out.passed_on)
              ≡ chunks)))

consed :
    (large : Bool) (chunk : Chunk) (front rest chunks : List Chunk)
    → (if large then front ++ rest else front) ≡ chunks
    → (if large then (chunk ∷ front) ++ rest else chunk ∷ front) ≡ chunk ∷ chunks
consed true chunk front rest chunks e = ap (◌∷◌ chunk) e
consed false chunk front rest chunks e = ap (◌∷◌ chunk) e

limit_from-IsCut :
    (seen max : ℕ) (chunks : List Chunk)
    → seen ≤ max
    → IsCut seen max chunks (limit_from seen max chunks)
unfolding limit_from size IsCut
limit_from-IsCut seen max [] h = (ground arith, (omega arith, ([], refl)))
limit_from-IsCut seen max (chunk ∷ chunks) h = elim (Bool-cases (max <? (seen + length chunk))) [
  | inl e ↦ rw e (ground arith, (omega arith, (chunk ∷ chunks, refl)))
  | inr e ↦
      let out = limit_from (seen + length chunk) max chunks in
      let (cut, (within, (rest, whole))) =
        limit_from-IsCut (seen + length chunk) max chunks (ground arith) in
      rw e (
        cut ∙ ap (λ n. max <? n) (omega arith),
        (omega arith, (rest, consed out.too_large chunk out.passed_on rest chunks whole)),
      )
]

-- The limiter breaks off with an error exactly if the body is larger than the limit; it never
-- passes on more bytes than the limit; what it passes on begins the body, and is all of it when
-- there is no error.
limit_body_size_lem :
    (chunks : List Chunk) (max : ℕ)
    → let out = limit_body_size chunks max in
      (out.too_large ≡ (max <? size chunks))
      × ((size out.passed_on ≤ max)
          × ((rest : List Chunk) × ((if out.too_large then out.passed_on ++ rest else out.passed_on)
                ≡ chunks)))
unfolding IsCut
limit_body_size_lem chunks max =
    let whole : IsCut 0 max chunks (limit_body_size chunks max) =
      limit_from-IsCut 0 max chunks (omega arith) in
    (whole.0 ∙ ap (λ n. max <? n) (omega arith), (omega (arith, whole.1.0), whole.1.1))
