-- ===== src/RateLimit/Redis/Hashes/Laws.antt =====
-- Each script decides and stores what its algorithm does, and lets a key expire only when the
-- algorithm would not tell its state from none.
use apigateaway.Common.{
  ℕ, ◌+◌, ◌-◌, ◌*◌, ◌/◌, ◌≡◌, refl, Bool, true, false, Option, none, some, ◌==◌, ◌≤?◌, ceil_div,
  Bool-cases, Option-cases, inl, inr, arith,
}
use apigateaway.RateLimit.Types.{Policy, capacity, Algorithm}
use apigateaway.RateLimit.Redis.{Keyed, live, Script, flag, args_of, result_of}
use apigateaway.RateLimit.Redis.Hashes.{
  stored_for, fixed_window_script, token_bucket_script, leaky_bucket_script, previous_in,
  current_in, sliding_counter_script,
}
use apigateaway.RateLimit.FixedWindow.{window_start_of, fixed_window}
use apigateaway.RateLimit.TokenBucket.{refilled, token_bucket}
use apigateaway.RateLimit.LeakyBucket.{leaked, leaky_bucket}
use apigateaway.RateLimit.SlidingCounter.{
  SlidingCounterState, carry_forward, estimate_of, sliding_counter,
}

-- On what is live, the script answers as the algorithm does, and stores its state for the time given.
abbrev pub Runs : {S : Type 0} → Algorithm S → Script (Keyed S) → (Policy → ℕ) → Type 0
Runs {S} apply script ttl =
    (p : Policy) (key : Option (Keyed S)) (now cost : ℕ)
    → let out = apply (live key now) p now cost in
      (result_of p (script key (args_of p now cost)).0 ≡ out.result)
      × ((script key (args_of p now cost)).1 ≡ stored_for out.state now (ttl p))

flag-eq-one : (b : Bool) → (flag b == 1) ≡ b
flag-eq-one true = refl
flag-eq-one false = refl

pub fixed_window-Runs : Runs fixed_window fixed_window_script (λ p. p.window_ms)
unfolding fixed_window fixed_window_script
fixed_window-Runs p key now cost = elim (Option-cases (live key now)) [
  | inl e ↦ rw e (ground arith, ground arith)
  | inr (s, e) ↦ rw e (ground arith, ground arith)
]

pub token_bucket-Runs :
    Runs token_bucket token_bucket_script (λ p. ceil_div (capacity p * p.window_ms) p.limit + 1000)
unfolding token_bucket token_bucket_script refilled
token_bucket-Runs p key now cost = elim (Option-cases (live key now)) [
  | inl e ↦ rw e (ground arith, ground arith)
  | inr (s, e) ↦ rw e (ground arith, ground arith)
]

pub leaky_bucket-Runs :
    Runs leaky_bucket leaky_bucket_script (λ p. ceil_div (capacity p * p.window_ms) p.limit + 1000)
unfolding leaky_bucket leaky_bucket_script leaked
leaky_bucket-Runs p key now cost = elim (Option-cases (live key now)) [
  | inl e ↦ rw e (ground arith, ground arith)
  | inr (s, e) ↦ rw e (ground arith, ground arith)
]

previous_count-carry_forward :
    (raw : Option SlidingCounterState) (window_start window_ms : ℕ)
    → (carry_forward raw window_start window_ms).previous_count
      ≡ previous_in raw window_start window_ms
unfolding carry_forward
previous_count-carry_forward none window_start window_ms = refl
previous_count-carry_forward (some s) window_start window_ms = ground arith

current_count-carry_forward :
    (raw : Option SlidingCounterState) (window_start window_ms : ℕ)
    → (carry_forward raw window_start window_ms).current_count ≡ current_in raw window_start
unfolding carry_forward
current_count-carry_forward none window_start window_ms = refl
current_count-carry_forward (some s) window_start window_ms = ground arith

pub sliding_counter-Runs : Runs sliding_counter sliding_counter_script (λ p. p.window_ms * 2)
unfolding sliding_counter sliding_counter_script estimate_of
sliding_counter-Runs p key now cost =
    let w = p.window_ms in
    let raw = live key now in
    rw
      (
        previous_count-carry_forward raw (window_start_of now w) w,
        current_count-carry_forward raw (window_start_of now w) w,
      )
      (elim (Bool-cases (
        previous_in raw (now / w * w) w * (w - (now - now / w * w))
          + current_in raw (now / w * w) * w
          + cost * w
        ≤? p.limit * w)) [
          | inl e ↦
              let more : previous_in raw (now / w * w) w * (w - (now - now / w * w))
                    + (current_in raw (now / w * w) + cost) * w
                  ≡ previous_in raw (now / w * w) w * (w - (now - now / w * w))
                    + current_in raw (now / w * w) * w
                    + cost * w =
                grind arith in
              rw (e, more) (refl, refl)
          | inr e ↦ rw e (refl, refl)
        ])
