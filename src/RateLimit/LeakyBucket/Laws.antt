-- ===== src/RateLimit/LeakyBucket/Laws.antt =====
-- A leaky bucket is a token bucket seen from the other side: its level is what is missing from the
-- tokens, so that the two algorithms take the same decisions.
use apigateaway.Common.{ap₂, ℕ, ◌+◌, ◌*◌, ◌≡◌, refl, Option, none, some, List, [], ◌∷◌, arith}
use apigateaway.RateLimit.Types.{Policy, capacity}
use apigateaway.RateLimit.Trace.{Call, decisions}
use apigateaway.RateLimit.TokenBucket.{TokenBucketState, refilled, token_bucket}
use apigateaway.RateLimit.LeakyBucket.{LeakyBucketState, leaked, leaky_bucket}

-- The states correspond: together they fill the bucket, and they were updated at the same time.
abbrev pub Mirrors : Policy → Option LeakyBucketState → Option TokenBucketState → Type 0
Mirrors p none none = Unit
Mirrors p (some l) (some t) =
    (l.level + t.tokens ≡ capacity p * p.window_ms) × (l.last_leak_ms ≡ t.last_refill_ms)
Mirrors p none (some t) = ⊥
Mirrors p (some l) none = ⊥

leaked-refilled :
    (p : Policy) (l : Option LeakyBucketState) (t : Option TokenBucketState) (now : ℕ)
    → Mirrors p l t
    → leaked l p now + refilled t p now ≡ capacity p * p.window_ms
unfolding leaked refilled
leaked-refilled p none none now h = omega arith
leaked-refilled p (some l) (some t) now (h, e) = rw e (omega (arith, h))
leaked-refilled p none (some t) now h = absurd h
leaked-refilled p (some l) none now h = absurd h

leaky_bucket-Mirrors :
    (p : Policy) (l : Option LeakyBucketState) (t : Option TokenBucketState) (now cost : ℕ)
    → Mirrors p l t
    → ((leaky_bucket l p now cost).result ≡ (token_bucket t p now cost).result)
      × Mirrors p (some (leaky_bucket l p now cost).state) (some (token_bucket t p now cost).state)
unfolding leaky_bucket token_bucket
leaky_bucket-Mirrors p l t now cost h =
    let e = leaked-refilled p l t now h in (ground (arith, e), (ground (arith, e), refl))

decisions-Mirrors :
    (p : Policy) (l : Option LeakyBucketState) (t : Option TokenBucketState) (calls : List Call)
    → Mirrors p l t
    → decisions leaky_bucket p l calls ≡ decisions token_bucket p t calls
unfolding decisions
decisions-Mirrors p l t [] h = refl
decisions-Mirrors p l t ((now, cost) ∷ calls) h =
    let (same, mirrors) = leaky_bucket-Mirrors p l t now cost h in
    ap₂ (λ r ds. record { at_time = now; cost = cost; result = r } ∷ ds) same
      (decisions-Mirrors p (some (leaky_bucket l p now cost).state)
        (some (token_bucket t p now cost).state) calls mirrors)

-- Where the arithmetic is exact, as it is here and not in floating point: on every sequence of calls a
-- leaky bucket takes the decisions of a token bucket of the same
-- policy, with the same remaining quota and the same waiting time, also when the clock steps back.
leaky_bucket-token_bucket :
    (p : Policy) (calls : List Call)
    → decisions leaky_bucket p none calls ≡ decisions token_bucket p none calls
leaky_bucket-token_bucket p calls = decisions-Mirrors p none none calls tt
