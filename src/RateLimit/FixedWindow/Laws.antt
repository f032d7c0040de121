-- ===== src/RateLimit/FixedWindow/Laws.antt =====
-- What a fixed window grants.
use apigateaway.Common.{
  none, ◌<◌, div_le_of_lt, false, not, inl, inr, Bool-cases, ◌≤?◌, lt_of_div_le, ℕ, ◌+◌, ◌-◌, ◌/◌,
  ◌≤◌, ◌≡◌, refl, Option, some, List, [], ◌∷◌, Bool, if◌then◌else◌, ◌==◌, ◌<?◌, arith, div_mono,
  mul_mono,
}
use apigateaway.RateLimit.Types.{Policy, IsProper}
use apigateaway.RateLimit.Trace.{Call, decisions, granted, IsOrdered}
use apigateaway.RateLimit.FixedWindow.{FixedWindowState, window_start_of, count_in, fixed_window}

-- The test for the times of the window that starts at `w`.
abbrev pub in_window : ℕ → ℕ → ℕ → Bool
in_window w window_ms t = window_start_of t window_ms == w

pub window_start_of_mono : (t u w : ℕ) → t ≤ u → window_start_of t w ≤ window_start_of u w
window_start_of_mono t u w h = mul_mono (t / w) (u / w) w (div_mono t u w h)

-- What window `w` may still get: nothing if it is over, the rest of its quota if it is the current
-- one, a whole quota if it is still to come.
abbrev quota : Policy → FixedWindowState → ℕ → ℕ
quota p s w =
    if w <? s.window_start then 0 else if w == s.window_start then p.limit - s.count else p.limit

step-quota :
    (p : Policy) (state : Option FixedWindowState) (now cost w : ℕ)
    → count_in state (window_start_of now p.window_ms) ≤ p.limit
    → let out = fixed_window state p now cost in
      (out.state.count ≤ p.limit)
      × (out.state.window_start ≡ window_start_of now p.window_ms)
      × ((if out.result.allowed then cost else 0) + count_in state out.state.window_start
          ≡ out.state.count)
unfolding fixed_window
step-quota p state now cost w h = (ground arith, refl, ground arith)

granted-le-quota :
    (p : Policy) (s : FixedWindowState) (calls : List Call) (t w : ℕ)
    → s.count ≤ p.limit
    → s.window_start ≡ window_start_of t p.window_ms
    → IsOrdered t calls
    → granted (in_window w p.window_ms) (decisions fixed_window p (some s) calls) ≤ quota p s w
unfolding decisions granted
granted-le-quota p s [] t w fits start ordered = ground arith
granted-le-quota p s ((now, cost) ∷ calls) t w fits start (h, ordered) =
    let out = fixed_window (some s) p now cost in
    let (fits', start', adds) = step-quota p (some s) now cost w (ground arith) in
    let ih = granted-le-quota p out.state calls now w fits' start' ordered in
    let mono = window_start_of_mono t now p.window_ms h in ground (arith, ih, mono, adds, start')

-- With a clock that does not step back, no window of the policy is granted more than its limit.
pub fixed_window-limit :
    (p : Policy) (calls : List Call) (w : ℕ)
    → IsOrdered 0 calls
    → granted (in_window w p.window_ms) (decisions fixed_window p none calls) ≤ p.limit
unfolding decisions granted
fixed_window-limit p [] w ordered = omega arith
fixed_window-limit p ((now, cost) ∷ calls) w (h, ordered) =
    let out = fixed_window none p now cost in
    let (fits', start', adds) = step-quota p none now cost w (omega arith) in
    ground (arith, granted-le-quota p out.state calls now w fits' start' ordered, adds, start')

pub window_start_of-le : (now w : ℕ) → window_start_of now w ≤ now
window_start_of-le now w = grind arith

pub lt-window_end : (now w : ℕ) → 0 < w → now < window_start_of now w + w
lt-window_end now w h = grind (arith, lt_of_div_le now w (now / w) h (omega arith))

-- A later time is in the same window exactly while the window has not ended.
pub window_test :
    (now u w : ℕ)
    → 0 < w
    → (window_start_of now w == window_start_of (now + u) w)
      ≡ not (window_start_of now w + w - now ≤? u)
window_test now u w h = elim (Bool-cases (window_start_of now w + w - now ≤? u)) [
  | inl over ↦ rw over (ground (arith, window_start_of-le (now + u) w, lt-window_end (now + u) w h))
  | inr still ↦ rw still (
      grind (
        arith,
        div_mono now (now + u) w (omega arith),
        div_le_of_lt (now + u) w (now / w) h (grind arith),
      ))
]

-- `retryAfterMs` of a refusal is exact: a call of the same cost is refused before it has passed, and
-- granted from then on, as long as the cost is within the limit.
pub fixed_window-retry :
    (p : Policy) (state : Option FixedWindowState) (now cost wait : ℕ)
    → IsProper p
    → cost ≤ p.limit
    → (fixed_window state p now cost).result.allowed ≡ false
    → let out = fixed_window state p now cost in
      (fixed_window (some out.state) p (now + wait) cost).result.allowed
      ≡ (out.result.retry_after_ms ≤? wait)
unfolding fixed_window
fixed_window-retry p state now cost wait proper fits denied =
    ground (arith, window_test now wait p.window_ms proper.window_pos)
