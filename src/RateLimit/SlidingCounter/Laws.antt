-- ===== src/RateLimit/SlidingCounter/Laws.antt =====
-- What a sliding window counter grants.
use apigateaway.Common.{
  ℕ, ◌+◌, ◌-◌, ◌*◌, ◌≤◌, ◌≡◌, refl, Option, none, some, List, [], ◌∷◌, if◌then◌else◌, ◌==◌, ◌<?◌,
  arith, le_of_mul-le,
}
use apigateaway.RateLimit.Types.{Policy, IsProper}
use apigateaway.RateLimit.Trace.{Call, decisions, granted, IsOrdered}
use apigateaway.RateLimit.FixedWindow.{window_start_of}
use apigateaway.RateLimit.FixedWindow.Laws.{in_window, window_start_of_mono}
use apigateaway.RateLimit.SlidingCounter.{
  SlidingCounterState, Counts, carry_forward, estimate_of, sliding_counter,
}

-- The count of the current window, before a call.
abbrev count_of : Option SlidingCounterState → ℕ → ℕ
count_of none window_start = 0
count_of (some s) window_start = if s.window_start == window_start then s.current_count else 0

current_count-carry_forward :
    (state : Option SlidingCounterState) (start w : ℕ)
    → (carry_forward state start w).current_count ≡ count_of state start
unfolding carry_forward
current_count-carry_forward none start w = refl
current_count-carry_forward (some s) start w = ground arith

count-le-estimate : (c : Counts) (elapsed w : ℕ) → c.current_count * w ≤ estimate_of c elapsed w
unfolding estimate_of
count-le-estimate c elapsed w = omega arith

abbrev quota : Policy → SlidingCounterState → ℕ → ℕ
quota p s w =
    if w <? s.window_start
    then 0
    else if w == s.window_start
    then p.limit - s.current_count
    else p.limit

step-quota :
    (p : Policy) (state : Option SlidingCounterState) (now cost : ℕ)
    → IsProper p
    → count_of state (window_start_of now p.window_ms) ≤ p.limit
    → let out = sliding_counter state p now cost in
      (out.state.current_count ≤ p.limit)
      × (out.state.window_start ≡ window_start_of now p.window_ms)
      × ((if out.result.allowed then cost else 0) + count_of state (window_start_of now p.window_ms)
          ≡ out.state.current_count)
unfolding sliding_counter
step-quota p state now cost proper h =
    let start = window_start_of now p.window_ms in
    let counts = carry_forward state start p.window_ms in
    let same = current_count-carry_forward state start p.window_ms in
    let room = count-le-estimate counts (now - start) p.window_ms in
    let fits = le_of_mul-le (counts.current_count + cost) p.limit p.window_ms proper.window_pos in
    (ground (arith, same, room, fits), refl, ground (arith, same))

granted-le-quota :
    (p : Policy) (s : SlidingCounterState) (calls : List Call) (t w : ℕ)
    → IsProper p
    → s.current_count ≤ p.limit
    → s.window_start ≡ window_start_of t p.window_ms
    → IsOrdered t calls
    → granted (in_window w p.window_ms) (decisions sliding_counter p (some s) calls) ≤ quota p s w
unfolding decisions granted
granted-le-quota p s [] t w proper fits start ordered = ground arith
granted-le-quota p s ((now, cost) ∷ calls) t w proper fits start (h, ordered) =
    let out = sliding_counter (some s) p now cost in
    let (fits', start', adds) = step-quota p (some s) now cost proper (ground arith) in
    let ih = granted-le-quota p out.state calls now w proper fits' start' ordered in
    ground (arith, ih, window_start_of_mono t now p.window_ms h, adds, start')

-- With a clock that does not step back, no window of the policy is granted more than its limit:
-- the weight of the previous window only takes away from it.
pub sliding_counter-limit :
    (p : Policy) (calls : List Call) (w : ℕ)
    → IsProper p
    → IsOrdered 0 calls
    → granted (in_window w p.window_ms) (decisions sliding_counter p none calls) ≤ p.limit
unfolding decisions granted
sliding_counter-limit p [] w proper ordered = omega arith
sliding_counter-limit p ((now, cost) ∷ calls) w proper (h, ordered) =
    let out = sliding_counter none p now cost in
    let (fits', start', adds) = step-quota p none now cost proper (omega arith) in
    ground
      (arith, granted-le-quota p out.state calls now w proper fits' start' ordered, adds, start')
