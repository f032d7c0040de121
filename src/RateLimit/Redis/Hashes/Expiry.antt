-- ===== src/RateLimit/Redis/Hashes/Expiry.antt =====
-- A key expires only when the algorithm would not tell its state from none, so that a script decides
-- as its algorithm does over any sequence of calls.
use apigateaway.Common.{
  List, [], ◌∷◌, sym, le_of_test, ℕ, ◌+◌, ◌-◌, ◌*◌, ◌≤◌, ◌<◌, ◌≡◌, refl, ap, false, Option, none,
  some, ◌==◌, ◌≤?◌, ceil_div, le_of_ceil_div-le, Bool-cases, inl, inr, arith,
}
use apigateaway.RateLimit.Types.{Policy, IsProper, capacity, Algorithm}
use apigateaway.RateLimit.Trace.{Call, Decision, decisions}
use apigateaway.RateLimit.Redis.{Keyed, live, Script, redis_consume, script_decisions}
use apigateaway.RateLimit.Redis.Hashes.{
  fixed_window_script, token_bucket_script, leaky_bucket_script, sliding_counter_script,
}
use apigateaway.RateLimit.Redis.Hashes.Laws.{
  Runs, fixed_window-Runs, token_bucket-Runs, leaky_bucket-Runs, sliding_counter-Runs,
}
use apigateaway.RateLimit.FixedWindow.{FixedWindowState, window_start_of, fixed_window}
use apigateaway.RateLimit.FixedWindow.Laws.{window_start_of-le, lt-window_end}
use apigateaway.RateLimit.TokenBucket.{TokenBucketState, refilled, token_bucket}
use apigateaway.RateLimit.LeakyBucket.{LeakyBucketState, leaked, leaky_bucket}
use apigateaway.RateLimit.SlidingCounter.{SlidingCounterState, carry_forward, sliding_counter}

abbrev Held : {S : Type 0} → (S → Type 0) → Option S → Type 0
Held Good none = Unit
Held Good (some s) = Good s

-- Once the time to live of a state is over, the algorithm answers as if there were none.
module _ {S : Type 0} (apply : Algorithm S) (script : Script (Keyed S)) (ttl : Policy → ℕ)
    (runs : Runs apply script ttl) (p : Policy) (Good : S → Type 0)
    (stays : (o : Option S) (t cost : ℕ) → Held Good o → Good (apply o p t cost).state)
    (forgets : (o : Option S) (t c now cost : ℕ)
      → Held Good o
      → t + ttl p ≤ now
      → apply (some (apply o p t c).state) p now cost ≡ apply none p now cost) where
  -- The store holds the state, for as long as it makes a difference.
  abbrev Agrees : Option S → Option (Keyed S) → Type 0
  Agrees none none = Unit
  Agrees none (some k) = ⊥
  Agrees (some s) none = ⊥
  Agrees (some s) (some k) =
      (k.value ≡ s)
      × ((now cost : ℕ) → k.expires_at ≤ now → apply (some s) p now cost ≡ apply none p now cost)

  live-Agrees :
      (o : Option S) (key : Option (Keyed S)) (now cost : ℕ)
      → Agrees o key
      → apply (live key now) p now cost ≡ apply o p now cost
  live-Agrees none none now cost h = refl
  live-Agrees none (some k) now cost h = elim h [ ]
  live-Agrees (some s) none now cost h = elim h [ ]
  live-Agrees (some s) (some k) now cost (same, gone) = elim (Bool-cases (k.expires_at ≤? now)) [
    | inl e ↦ rw e (sym (gone now cost (le_of_test k.expires_at now e)))
    | inr e ↦ rw (e, same) refl
  ]

  pub script_decisions-decisions :
      (o : Option S) (key : Option (Keyed S)) (calls : List Call)
      → Held Good o
      → Agrees o key
      → script_decisions script p key calls ≡ decisions apply p o calls
  unfolding script_decisions redis_consume decisions
  script_decisions-decisions o key [] held h = refl
  script_decisions-decisions o key ((now, cost) ∷ calls) held h =
      let (answer, stored) = runs p key now cost in
      let same = live-Agrees o key now cost h in
      rw (answer, stored, same)
        (ap
          (λ (ds : List Decision).
            record { at_time = now; cost = cost; result = (apply o p now cost).result } ∷ ds)
          (script_decisions-decisions (some (apply o p now cost).state) _ calls
            (stays o now cost held) (refl, λ later c late. forgets o now cost later c held late)))

window_start_of-lt :
    (t w now : ℕ) → 0 < w → t + w ≤ now → window_start_of t w < window_start_of now w
window_start_of-lt t w now h k = omega (arith, window_start_of-le t w, lt-window_end now w h)

-- Every state is as good as another, for the algorithms that need no more.
abbrev Any : {S : Type 0} → S → Type 0
Any s = Unit

fixed_window_forgets :
    (p : Policy) (o : Option FixedWindowState) (t c now cost : ℕ)
    → 0 < p.window_ms
    → t + p.window_ms ≤ now
    → fixed_window (some (fixed_window o p t c).state) p now cost ≡ fixed_window none p now cost
unfolding fixed_window
fixed_window_forgets p o t c now cost h late =
    let apart = window_start_of-lt t p.window_ms now h late in
    let differ : (window_start_of t p.window_ms == window_start_of now p.window_ms) ≡ false =
      ground arith in
    rw differ refl

refilled_full :
    (p : Policy) (s : TokenBucketState) (now : ℕ)
    → capacity p * p.window_ms ≤ (now - s.last_refill_ms) * p.limit
    → refilled (some s) p now ≡ refilled none p now
unfolding refilled
refilled_full p s now h = omega arith

token_bucket_forgets :
    (p : Policy) (o : Option TokenBucketState) (t c now cost : ℕ)
    → 0 < p.limit
    → t + (ceil_div (capacity p * p.window_ms) p.limit + 1000) ≤ now
    → token_bucket (some (token_bucket o p t c).state) p now cost ≡ token_bucket none p now cost
unfolding token_bucket
token_bucket_forgets p o t c now cost h late =
    let full = capacity p * p.window_ms in
    let enough : full ≤ (now - t) * p.limit =
      le_of_ceil_div-le full p.limit (now - t) h (omega arith) in
    rw (refilled_full p (token_bucket o p t c).state now enough) refl

leaked_full :
    (p : Policy) (s : LeakyBucketState) (now : ℕ)
    → s.level ≤ capacity p * p.window_ms
    → capacity p * p.window_ms ≤ (now - s.last_leak_ms) * p.limit
    → leaked (some s) p now ≡ leaked none p now
unfolding leaked
leaked_full p s now h k = omega arith

-- No more than the capacity is in a leaky bucket.
abbrev Fits : Policy → LeakyBucketState → Type 0
Fits p s = s.level ≤ capacity p * p.window_ms

leaky_bucket-Fits :
    (p : Policy) (o : Option LeakyBucketState) (t cost : ℕ)
    → Held (Fits p) o
    → Fits p (leaky_bucket o p t cost).state
unfolding leaky_bucket leaked
leaky_bucket-Fits p none t cost h = ground arith
leaky_bucket-Fits p (some s) t cost h = ground arith

leaky_bucket_forgets :
    (p : Policy) (o : Option LeakyBucketState) (t c now cost : ℕ)
    → 0 < p.limit
    → Held (Fits p) o
    → t + (ceil_div (capacity p * p.window_ms) p.limit + 1000) ≤ now
    → leaky_bucket (some (leaky_bucket o p t c).state) p now cost ≡ leaky_bucket none p now cost
unfolding leaky_bucket
leaky_bucket_forgets p o t c now cost h held late =
    let full = capacity p * p.window_ms in
    let enough : full ≤ (now - t) * p.limit =
      le_of_ceil_div-le full p.limit (now - t) h (omega arith) in
    let s = (leaky_bucket o p t c).state in
    rw (leaked_full p s now (leaky_bucket-Fits p o t c held) enough) refl

carry_forward_gone :
    (s : SlidingCounterState) (window_start window_ms : ℕ)
    → s.window_start + window_ms < window_start
    → carry_forward (some s) window_start window_ms ≡ carry_forward none window_start window_ms
unfolding carry_forward
carry_forward_gone s window_start window_ms h = ground arith

sliding_counter_forgets :
    (p : Policy) (o : Option SlidingCounterState) (t c now cost : ℕ)
    → 0 < p.window_ms
    → t + p.window_ms * 2 ≤ now
    → sliding_counter (some (sliding_counter o p t c).state) p now cost
      ≡ sliding_counter none p now cost
unfolding sliding_counter
sliding_counter_forgets p o t c now cost h late =
    let w = p.window_ms in
    let apart : window_start_of t w + w < window_start_of now w =
      omega (arith, window_start_of-le t w, lt-window_end now w h) in
    rw (carry_forward_gone (sliding_counter o p t c).state (window_start_of now w) w apart) refl

module _ (p : Policy) (calls : List Call) (proper : IsProper p) where
  pub fixed_window_script-decisions :
      script_decisions fixed_window_script p none calls ≡ decisions fixed_window p none calls
  fixed_window_script-decisions =
      script_decisions-decisions fixed_window fixed_window_script (λ q. q.window_ms)
        fixed_window-Runs p Any (λ o t c h. tt)
        (λ o t c now cost h late. fixed_window_forgets p o t c now cost proper.window_pos late) none
        none calls tt tt

  pub token_bucket_script-decisions :
      script_decisions token_bucket_script p none calls ≡ decisions token_bucket p none calls
  token_bucket_script-decisions =
      script_decisions-decisions token_bucket token_bucket_script
        (λ q. ceil_div (capacity q * q.window_ms) q.limit + 1000) token_bucket-Runs p Any
        (λ o t c h. tt)
        (λ o t c now cost h late. token_bucket_forgets p o t c now cost proper.limit_pos late) none
        none calls tt tt

  pub leaky_bucket_script-decisions :
      script_decisions leaky_bucket_script p none calls ≡ decisions leaky_bucket p none calls
  leaky_bucket_script-decisions =
      script_decisions-decisions leaky_bucket leaky_bucket_script
        (λ q. ceil_div (capacity q * q.window_ms) q.limit + 1000) leaky_bucket-Runs p (Fits p)
        (λ o t c h. leaky_bucket-Fits p o t c h)
        (λ o t c now cost h late. leaky_bucket_forgets p o t c now cost proper.limit_pos h late)
        none none calls tt tt

  pub sliding_counter_script-decisions :
      script_decisions sliding_counter_script p none calls ≡ decisions sliding_counter p none calls
  sliding_counter_script-decisions =
      script_decisions-decisions sliding_counter sliding_counter_script (λ q. q.window_ms * 2)
        sliding_counter-Runs p Any (λ o t c h. tt)
        (λ o t c now cost h late. sliding_counter_forgets p o t c now cost proper.window_pos late)
        none none calls tt tt
