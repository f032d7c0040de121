-- ===== src/RateLimit/TokenBucket/Laws.antt =====
-- What a token bucket grants, and when it grants again.
use apigateaway.Common.{
  mul_mono, min, mul_sub_split, ceil_div, ceil_div-test, ◌≤?◌, false, ◌<◌, Option, ℕ, ◌+◌, ◌-◌, ◌*◌,
  ◌≤◌, ◌≡◌, refl, subst, Option, some, List, [], ◌∷◌, if◌then◌else◌, arith,
}
use apigateaway.RateLimit.Types.{Policy, IsProper, capacity}
use apigateaway.RateLimit.Trace.{
  Call, decisions, granted, granted-nil, granted-always-cons, always, IsOrdered, EndsBy,
}
use apigateaway.RateLimit.TokenBucket.{TokenBucketState, refilled, token_bucket}

refilled-le :
    (state : Option TokenBucketState) (p : Policy) (now : ℕ)
    → refilled state p now ≤ capacity p * p.window_ms
unfolding refilled
refilled-le state p now = omega arith

-- One call: what it grants and what it leaves do not exceed what the bucket held.
grant-le-refilled :
    (state : Option TokenBucketState) (p : Policy) (now cost : ℕ)
    → let out = token_bucket state p now cost in
      (if out.result.allowed then cost else 0) * p.window_ms + out.state.tokens
      ≡ refilled state p now
unfolding token_bucket
grant-le-refilled state p now cost = ground arith

refilled-le-add :
    (s : TokenBucketState) (p : Policy) (now : ℕ)
    → refilled (some s) p now ≤ s.tokens + (now - s.last_refill_ms) * p.limit
unfolding refilled
refilled-le-add s p now = omega arith

last_refill_ms-token_bucket :
    (state : Option TokenBucketState) (p : Policy) (now cost : ℕ)
    → now ≡ (token_bucket state p now cost).state.last_refill_ms
unfolding token_bucket
last_refill_ms-token_bucket state p now cost = refl

granted-le_from :
    (p : Policy) (s : TokenBucketState) (calls : List Call) (t : ℕ)
    → IsOrdered s.last_refill_ms calls
    → EndsBy t calls
    → s.last_refill_ms ≤ t
    → granted always (decisions token_bucket p (some s) calls) * p.window_ms
      ≤ s.tokens + (t - s.last_refill_ms) * p.limit
unfolding decisions granted
granted-le_from p s [] t ordered ends h = omega (arith, granted-nil always)
granted-le_from p s ((now, cost) ∷ calls) t (h, ordered) (e, ends) _ =
    let s' = (token_bucket (some s) p now cost).state in
    let k = last_refill_ms-token_bucket (some s) p now cost in
    rw (granted-always-cons _ _) (
      grind (
        arith,
        grant-le-refilled (some s) p now cost,
        refilled-le-add s p now,
        granted-le_from p s' calls t (subst (λ u. IsOrdered u calls) k ordered) ends
            (omega (arith, k)),
        mul_sub_split s.last_refill_ms now t p.limit h e,
        k,
      ))

-- Whatever a bucket holds, what it grants in a stretch of time is at most its capacity and what is
-- refilled meanwhile: granted ≤ capacity + (until - since) * limit / windowMs.
pub token_bucket-burst :
    (p : Policy) (state : Option TokenBucketState) (calls : List Call) (since until : ℕ)
    → IsOrdered since calls
    → EndsBy until calls
    → granted always (decisions token_bucket p state calls) * p.window_ms
      ≤ capacity p * p.window_ms + (until - since) * p.limit
unfolding decisions granted
token_bucket-burst p state [] since until ordered ends = omega arith
token_bucket-burst p state ((now, cost) ∷ calls) since until (h, ordered) (e, ends) =
    let s' = (token_bucket state p now cost).state in
    let k = last_refill_ms-token_bucket state p now cost in
    rw (granted-always-cons _ _) (
      grind (
        arith,
        grant-le-refilled state p now cost,
        refilled-le state p now,
        granted-le_from p s' calls until (subst (λ u. IsOrdered u calls) k ordered) ends
            (omega (arith, k)),
        mul_sub_split since now until p.limit h e,
        k,
      ))

refilled_later :
    (p : Policy) (s : TokenBucketState) (u : ℕ)
    → refilled (some s) p (s.last_refill_ms + u)
      ≡ min (capacity p * p.window_ms) (s.tokens + u * p.limit)
unfolding refilled
refilled_later p s u = let e : s.last_refill_ms + u - s.last_refill_ms ≡ u = omega arith in rw e

denied_lem :
    (p : Policy) (state : Option TokenBucketState) (now cost : ℕ)
    → (token_bucket state p now cost).result.allowed ≡ false
    → let out = token_bucket state p now cost in
      let held = refilled state p now in
      (held < cost * p.window_ms)
      × (out.state ≡ record { tokens = held; last_refill_ms = now })
      × (out.result.retry_after_ms ≡ ceil_div (cost * p.window_ms - held) p.limit)
unfolding token_bucket
denied_lem p state now cost denied = (ground arith, ground arith, ground arith)

allowed-token_bucket :
    (p : Policy) (state : Option TokenBucketState) (now cost : ℕ)
    → (token_bucket state p now cost).result.allowed ≡ (cost * p.window_ms ≤? refilled state p now)
unfolding token_bucket
allowed-token_bucket p state now cost = refl

price_test :
    (price full held more : ℕ)
    → price ≤ full
    → held < price
    → (price ≤? min full (held + more)) ≡ (price - held ≤? more)
price_test price full held more h k = ground arith

-- Where the arithmetic is exact, as it is here and not in floating point, so is `retryAfterMs` of a
-- refusal: a call of the same cost is refused before it has passed, and granted from then on, if the
-- cost fits into the bucket at all.
token_bucket-retry :
    (p : Policy) (state : Option TokenBucketState) (now cost wait : ℕ)
    → IsProper p
    → cost ≤ capacity p
    → (token_bucket state p now cost).result.allowed ≡ false
    → let out = token_bucket state p now cost in
      (token_bucket (some out.state) p (now + wait) cost).result.allowed
      ≡ (out.result.retry_after_ms ≤? wait)
token_bucket-retry p state now cost wait proper fits denied =
    let held = refilled state p now in
    let (short, left, retry) = denied_lem p state now cost denied in
    rw (left, retry, allowed-token_bucket, ceil_div-test _ p.limit wait proper.limit_pos)
      (rw (refilled_later p (record { tokens = held; last_refill_ms = now }) wait)
        (price_test _ _ held (wait * p.limit) (mul_mono cost (capacity p) p.window_ms fits) short))
