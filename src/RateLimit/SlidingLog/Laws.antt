-- ===== src/RateLimit/SlidingLog/Laws.antt =====
-- What a sliding window log grants in any window of its length.
use apigateaway.Common.{
  some, none, Bool-cases, inl, inr, ℕ, ◌+◌, ◌≤◌, ◌≡◌, refl, Option, List, [], ◌∷◌, ◌++◌, Bool,
  if◌then◌else◌, ◌&&◌, ◌<?◌, ◌≤?◌, keep, arith,
}
use apigateaway.RateLimit.Types.{Policy}
use apigateaway.RateLimit.Trace.{Call, decisions, granted, IsOrdered, granted-decisions-eq-zero}
use apigateaway.RateLimit.SlidingLog.{
  Entry, SlidingLogState, entries_of, is_alive, total, sliding_log,
}

-- The test for the times of the window of a length that ends at `e`: after `e - length`, up to `e`.
abbrev pub in_last : ℕ → ℕ → ℕ → Bool
in_last e window_ms t = (t ≤? e) && (e <? t + window_ms)

-- The cost of the entries in that window.
total_in : ℕ → ℕ → List Entry → ℕ
total_in e w [] = 0
total_in e w ((ts, cost) ∷ es) = (if in_last e w ts then cost else 0) + total_in e w es

total_in-le : (e w : ℕ) (es : List Entry) → total_in e w es ≤ total es
unfolding total_in
total_in-le e w [] = omega arith
total_in-le e w ((ts, cost) ∷ es) = ground (arith, total_in-le e w es)

total_in-append :
    (e w : ℕ) (es fs : List Entry) → total_in e w (es ++ fs) ≡ total_in e w es + total_in e w fs
unfolding total_in
total_in-append e w [] fs = omega arith
total_in-append e w ((ts, cost) ∷ es) fs = omega (arith, total_in-append e w es fs)

-- What has expired by now is in no window that ends from now on.
total_in-keep :
    (e w now : ℕ) (es : List Entry)
    → now ≤ e
    → total_in e w (keep (is_alive now w) es) ≡ total_in e w es
unfolding total_in
total_in-keep e w now [] h = refl
total_in-keep e w now ((ts, cost) ∷ es) h = ground (arith, total_in-keep e w now es h)

-- One call: what the log holds afterwards in the windows that end from now on, and in all.
sliding_log-step :
    (p : Policy) (state : Option SlidingLogState) (now cost e : ℕ)
    → now ≤ e
    → let out = sliding_log state p now cost in
      total_in e p.window_ms out.state.entries
      ≡ total_in e p.window_ms (entries_of state)
        + (if out.result.allowed && in_last e p.window_ms now then cost else 0)
unfolding sliding_log total_in
sliding_log-step p state now cost e h =
    let alive = keep (is_alive now p.window_ms) (entries_of state) in
    ground (
      arith,
      total_in-keep e p.window_ms now (entries_of state) h,
      total_in-append e p.window_ms alive ((now, cost) ∷ []),
    )

total-append : (es : List Entry) (now cost : ℕ) → total (es ++ (now, cost) ∷ []) ≡ total es + cost
total-append [] now cost = omega arith
total-append ((ts, c) ∷ es) now cost = omega (arith, total-append es now cost)

total_in-keep-le :
    (e w now : ℕ) (es : List Entry) → total_in e w (keep (is_alive now w) es) ≤ total_in e w es
unfolding total_in
total_in-keep-le e w now [] = omega arith
total_in-keep-le e w now ((ts, cost) ∷ es) = ground (arith, total_in-keep-le e w now es)

-- If no window holds more than the limit, so after a call.
sliding_log-total :
    (p : Policy) (state : Option SlidingLogState) (now cost e : ℕ)
    → total_in e p.window_ms (entries_of state) ≤ p.limit
    → total_in e p.window_ms (sliding_log state p now cost).state.entries ≤ p.limit
unfolding sliding_log
sliding_log-total p state now cost e h =
    let alive = keep (is_alive now p.window_ms) (entries_of state) in
    ground (
      arith,
      total_in-keep-le e p.window_ms now (entries_of state),
      total_in-le e p.window_ms (alive ++ (now, cost) ∷ []),
      total-append alive now cost,
    )

granted-le-room :
    (p : Policy) (state : Option SlidingLogState) (calls : List Call) (t e : ℕ)
    → ((u : ℕ) → total_in u p.window_ms (entries_of state) ≤ p.limit)
    → IsOrdered t calls
    → total_in e p.window_ms (entries_of state)
        + granted (in_last e p.window_ms) (decisions sliding_log p state calls)
      ≤ p.limit
unfolding decisions granted
granted-le-room p state [] t e h ordered = omega (arith, h e)
granted-le-room p state ((now, cost) ∷ calls) t e h (k, ordered) =
    let out = sliding_log state p now cost in
    let ih =
      granted-le-room p (some out.state) calls now e
        (λ u. sliding_log-total p state now cost u (h u)) ordered in
    elim (Bool-cases (now ≤? e)) [
      | inl reached ↦ ground (arith, ih, sliding_log-step p state now cost e (ground arith))
      | inr before ↦ ground (
        arith,
        h e,
        granted-decisions-eq-zero sliding_log p (in_last e p.window_ms) now (λ u late. ground arith)
            (some out.state) calls ordered,
      )
    ]

-- With a clock that does not step back, no stretch of time of the policy's length, wherever it ends,
-- is granted more than the limit.
pub sliding_log-limit :
    (p : Policy) (calls : List Call) (e : ℕ)
    → IsOrdered 0 calls
    → granted (in_last e p.window_ms) (decisions sliding_log p none calls) ≤ p.limit
unfolding total_in
sliding_log-limit p calls e ordered =
    omega (arith, granted-le-room p none calls 0 e (λ u. omega arith) ordered)
