-- ===== src/RateLimit/Store/Laws.antt =====
-- The store keeps one instance of its algorithm for each key.
use apigateaway.Common.{
  ℕ, ◌≡◌, refl, Option, none, some, List, [], ◌∷◌, if◌then◌else◌, arith, Text, text_eq, text_eq_iff,
  Dict, lookup, insert, lookup-insert, lookup-delete,
}
use apigateaway.RateLimit.Types.{Policy, RateLimitResult, Algorithm}
use apigateaway.RateLimit.Store.{consume, reset, close}

-- A call of a store: the time is what the clock read.
pub data Operation : Type 0 where
  consumes : Text → Policy → ℕ → ℕ → Operation
  resets : Text → Operation
  closes : Operation

module _ {S : Type 0} (apply : Algorithm S) where
  -- The results of the calls for one key, in a history of calls for any keys.
  pub results_for : Text → Dict S → List Operation → List RateLimitResult
  results_for key states [] = []
  results_for key states (consumes k policy now cost ∷ ops) =
      let (result, states') = consume apply states k policy now cost in
      let later = results_for key states' ops in if text_eq k key then result ∷ later else later
  results_for key states (resets k ∷ ops) = results_for key (reset states k) ops
  results_for key states (closes ∷ ops) = results_for key (close states) ops

  -- One instance of the algorithm, which sees only its own calls.
  pub instance_results : Text → Option S → List Operation → List RateLimitResult
  instance_results key state [] = []
  instance_results key state (consumes k policy now cost ∷ ops) =
      let out = apply state policy now cost in
      let seen = out.result ∷ instance_results key (some out.state) ops in
      let unseen = instance_results key state ops in if text_eq k key then seen else unseen
  instance_results key state (resets k ∷ ops) =
      instance_results key (if text_eq k key then none else state) ops
  instance_results key state (closes ∷ ops) = instance_results key none ops

  -- Whatever the other keys do, a key gets the results of its own instance of the algorithm, which
  -- `reset` of the key and `close` make anew.
  pub results_for-instance_results :
      (key : Text) (states : Dict S) (ops : List Operation)
      → results_for key states ops ≡ instance_results key (lookup key states) ops
  unfolding results_for instance_results consume
  results_for-instance_results key states [] = refl
  results_for-instance_results key states (consumes k policy now cost ∷ ops) =
      let out = apply (lookup k states) policy now cost in
      ground (
        arith,
        text_eq_iff k key,
        lookup-insert k key out.state states,
        results_for-instance_results key (insert k out.state states) ops,
      )
  results_for-instance_results key states (resets k ∷ ops) =
      rw (results_for-instance_results key (reset states k) ops, lookup-delete k key states)
  results_for-instance_results key states (closes ∷ ops) = results_for-instance_results key [] ops
