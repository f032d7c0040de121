-- ===== src/Adapters/Laws.antt =====
-- The adapters answer as the gateway does.
use apigateaway.Common.{◌≡◌, refl, Bool, true, false, some, List, [], ◌∷◌, Bool-cases, inl, inr}
use apigateaway.Http.{ReplyCall}
use apigateaway.RateLimit.Types.{RateLimitResult}
use apigateaway.RateLimit.Enforce.{Enforced, decide}
use apigateaway.Adapters.{Passed, goes_on, answered_here, on_result}

abbrev of_enforced : Enforced → Passed × List ReplyCall
of_enforced e = (elim e.passes [ true ↦ goes_on | false ↦ answered_here ], e.calls)

-- On the result of its one check an adapter makes the calls, and takes the decision, of the gateway
-- on a route with that check.
on_result-decide :
    (fail_open : Bool) (r : RateLimitResult)
    → on_result (some r) ≡ of_enforced (decide fail_open (some (r ∷ [])))
on_result-decide fail_open r = elim (Bool-cases r.allowed) [ inl e ↦ rw e refl | inr e ↦ rw e refl ]
