-- ===== src/RateLimit/Trace.antt =====
-- A sequence of calls of one algorithm for one key under one policy, and what it grants: the loop
-- that packages/core/scripts/compare-algorithms.ts and the unit tests run.
use apigateaway.Common.{
  ℕ, ◌+◌, ◌≤◌, ◌≡◌, refl, Option, some, List, [], ◌∷◌, Bool, true, false, if◌then◌else◌, ◌&&◌, All,
  arith,
}
use apigateaway.RateLimit.Types.{Policy, RateLimitResult, Algorithm}

-- The time and the cost of a call.
abbrev pub Call : Type 0
Call = ℕ × ℕ

pub record Decision : Type 0 where
  pub at_time : ℕ
  pub cost : ℕ
  pub result : RateLimitResult

module _ {S : Type 0} (apply : Algorithm S) (policy : Policy) where
  unfoldable pub decisions : Option S → List Call → List Decision
  decisions state [] = []
  decisions state ((now, cost) ∷ calls) =
      let out = apply state policy now cost in
      record { at_time = now; cost = cost; result = out.result } ∷ decisions (some out.state) calls

  unfoldable pub state_after : Option S → List Call → Option S
  state_after state [] = state
  state_after state ((now, cost) ∷ calls) =
      state_after (some (apply state policy now cost).state) calls

-- The cost granted by the decisions whose time passes a test.
unfoldable pub granted : (ℕ → Bool) → List Decision → ℕ
granted at [] = 0
granted at (d ∷ ds) = (if d.result.allowed && at d.at_time then d.cost else 0) + granted at ds

abbrev pub always : ℕ → Bool
always t = true

-- The times do not fall, and the first is not before `t`.
abbrev pub IsOrdered : ℕ → List Call → Type 0
IsOrdered t [] = Unit
IsOrdered t ((now, cost) ∷ calls) = (t ≤ now) × IsOrdered now calls

abbrev pub EndsBy : ℕ → List Call → Type 0
EndsBy t = All (λ c. c.0 ≤ t)

-- A test that no time from `t` on passes grants nothing.
pub granted-decisions-eq-zero :
    {S : Type 0} (apply : Algorithm S) (policy : Policy) (at : ℕ → Bool) (t : ℕ)
    → ((u : ℕ) → t ≤ u → at u ≡ false)
    → (state : Option S) (calls : List Call) → IsOrdered t calls
    → granted at (decisions apply policy state calls) ≡ 0
unfolding granted decisions
granted-decisions-eq-zero apply policy at t late state [] ordered = refl
granted-decisions-eq-zero apply policy at t late state ((now, cost) ∷ calls) (h, ordered) = ground (
  arith,
  late now h,
  granted-decisions-eq-zero apply policy at now (λ u k. late u (omega arith))
      (some (apply state policy now cost).state) calls ordered,
)

pub granted-nil : (at : ℕ → Bool) → granted at [] ≡ 0
unfolding granted
granted-nil at = refl

pub granted-always-cons :
    (d : Decision) (ds : List Decision)
    → granted always (d ∷ ds) ≡ (if d.result.allowed then d.cost else 0) + granted always ds
unfolding granted
granted-always-cons d ds = ground arith
