-- ===== src/Watch/Laws.antt =====
-- Reloads do not overlap.
use apigateaway.Common.{
  ℕ, ◌+◌, ◌-◌, ◌≤◌, ◌<◌, ◌≡◌, refl, Bool, true, false, none, some, List, [], ◌∷◌, if◌then◌else◌,
  arith,
}
use apigateaway.Watch.{
  Started, threw_at_once, promised, WatchEvent, triggered, settled, WatchCall, reload_called,
  error_reported, watch_step,
}

abbrev pub reloads_in : List WatchCall → ℕ
reloads_in [] = 0
reloads_in (reload_called config ∷ calls) = reloads_in calls + 1
reloads_in (error_reported ∷ calls) = reloads_in calls

-- The calls of `onReload` in a step whose promise is still to settle.
abbrev pub awaited : Started → List WatchCall → ℕ
awaited threw_at_once calls = 0
awaited promised calls = reloads_in calls

-- How many promises of `onReload` have not settled after a step, of so many before it.
abbrev pub pending_after : ℕ → Bool → WatchEvent → ℕ
pending_after n reloading (triggered loaded started) =
    n + awaited started (watch_step reloading (triggered loaded started)).1
pending_after n reloading (settled success) = n - 1

unfoldable pub pending : ℕ → Bool → List WatchEvent → ℕ
pending n reloading [] = n
pending n reloading (e ∷ es) = pending (pending_after n reloading e) (watch_step reloading e).0 es

-- A promise can settle only if there is one.
abbrev pub CanHappen : ℕ → WatchEvent → Type 0
CanHappen n (triggered loaded started) = Unit
CanHappen n (settled success) = 0 < n

abbrev pub IsPossible : ℕ → Bool → List WatchEvent → Type 0
IsPossible n reloading [] = Unit
IsPossible n reloading (e ∷ es) =
    CanHappen n e × IsPossible (pending_after n reloading e) (watch_step reloading e).0 es

abbrev count_of : Bool → ℕ
count_of reloading = if reloading then 1 else 0

step-count :
    (n : ℕ) (reloading : Bool) (e : WatchEvent)
    → n ≡ count_of reloading
    → CanHappen n e
    → pending_after n reloading e ≡ count_of (watch_step reloading e).0
unfolding watch_step
step-count n true (triggered loaded threw_at_once) h k = omega arith
step-count n true (triggered loaded promised) h k = omega arith
step-count n false (triggered none threw_at_once) h k = omega arith
step-count n false (triggered none promised) h k = omega arith
step-count n false (triggered (some c) threw_at_once) h k = omega arith
step-count n false (triggered (some c) promised) h k = omega arith
step-count n true (settled true) h k = omega arith
step-count n true (settled false) h k = omega arith
step-count n false (settled true) h k = omega arith
step-count n false (settled false) h k = omega arith

pending-count :
    (n : ℕ) (reloading : Bool) (es : List WatchEvent)
    → n ≡ count_of reloading
    → IsPossible n reloading es
    → pending n reloading es ≤ 1
unfolding pending
pending-count n true [] h k = omega arith
pending-count n false [] h k = omega arith
pending-count n reloading (e ∷ es) h (k, ks) =
    pending-count (pending_after n reloading e) (watch_step reloading e).0 es
      (step-count n reloading e h k) ks

-- However the signals, the changes of the file and the ends of the reloads follow one another, where
-- a promise settles only if there is one, no more than one reload is in progress at the end.
pending-le : (es : List WatchEvent) → IsPossible 0 false es → pending 0 false es ≤ 1
pending-le es h = pending-count 0 false es refl h
