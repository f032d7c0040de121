-- ===== src/Proxy/Retry/Laws.antt =====
-- How often a request is sent, to whom, and what the balancer learns.
use apigateaway.Common.{
  ap, some, if◌then◌else◌, ◌≤◌, ◌∙◌, Bool-cases, inl, inr, Option, true, List, subst, none, ◌<◌,
  ◌-◌, ℕ, zero, suc, ◌+◌, ◌≤◌, ◌≡◌, ◌≢◌, refl, Option, none, some, [], ◌∷◌, ◌++◌, Text, length,
  arith,
}
use apigateaway.Breaker.{CircuitBreaker, open_, half_open, can_request}
use apigateaway.Balancer.{Balancer, admit, pick_from, pick_target, report_failure}
use apigateaway.Config.{RetryConfig}
use apigateaway.Proxy.Retry.{
  is_eligible, max_attempts, backoff_of, forward_with_retry, Outcome, ForwardResult, ForwardError,
  body_too_large, upstream_timeout, other, Attempt, answered, threw, responded, failed,
  no_healthy_target, Forwarded, Environment, stop, tried_first, sleep_before, report_status,
  retry_loop,
}

module _ (env : Environment) (backoff_ms : ℕ) where
  open env use {forward, picked_at, known_at}

  -- The cases of one round of the loop.
  pub round_cases {ℓ} :
      (P : Forwarded → Type ℓ) (left attempt : ℕ) (e : ForwardError) (b : Balancer)
      → let b' = (pick_target b (picked_at attempt)).1 in
        ((pick_target b (picked_at attempt)).0 ≡ none → P (stop no_healthy_target b' []))
        → ((target : Text) (r : ForwardResult)
            → (pick_target b (picked_at attempt)).0 ≡ some target
            → forward attempt target ≡ answered r
            → P (stop (responded r) (report_status b' target r (known_at attempt)) (target ∷ [])))
        → ((target : Text)
            → (pick_target b (picked_at attempt)).0 ≡ some target
            → forward attempt target ≡ threw body_too_large
            → P (stop (failed body_too_large) b' (target ∷ [])))
        → ((target : Text) (error : ForwardError)
            → (pick_target b (picked_at attempt)).0 ≡ some target
            → forward attempt target ≡ threw error
            → error ≢ body_too_large
            → P (
                tried_first target (sleep_before env backoff_ms left attempt) (
                  retry_loop env backoff_ms left
                    (attempt + 1)
                    error
                    (report_failure b' target (known_at attempt)))))
        → P (retry_loop env backoff_ms (suc left) attempt e b)
  unfolding retry_loop
  round_cases P left attempt e b nobody answer large again =
      by_pick (pick_target b (picked_at attempt)).0 refl
    where
      by_outcome :
          (target : Text) (a : Attempt)
          → (pick_target b (picked_at attempt)).0 ≡ some target
          → forward attempt target ≡ a
          → P (retry_loop env backoff_ms (suc left) attempt e b)
      by_outcome target (answered r) p q = rw (p, q, retry_loop) (answer target r p q)
      by_outcome target (threw body_too_large) p q = rw (p, q, retry_loop) (large target p q)
      by_outcome target (threw upstream_timeout) p q =
          rw (p, q, retry_loop) (again target upstream_timeout p q (λ h. cc))
      by_outcome target (threw other) p q = rw (p, q, retry_loop) (again target other p q (λ h. cc))

      by_pick :
          (o : Option Text)
          → (pick_target b (picked_at attempt)).0 ≡ o
          → P (retry_loop env backoff_ms (suc left) attempt e b)
      by_pick none p = rw (p, retry_loop) (nobody p)
      by_pick (some target) p = by_outcome target (forward attempt target) p refl

  tried-le :
      (left attempt : ℕ) (e : ForwardError) (b : Balancer)
      → length (retry_loop env backoff_ms left attempt e b).tried ≤ left
  unfolding retry_loop
  tried-le zero attempt e b = omega arith
  tried-le (suc left) attempt e b =
      round_cases (λ f. length f.tried ≤ suc left) left attempt e b (λ p. omega arith)
        (λ target r p q. omega arith) (λ target p q. omega arith)
        (λ target error p q h. omega (
          arith,
          tried-le left (attempt + 1) error
              (report_failure (pick_target b (picked_at attempt)).1 target (known_at attempt)),
        ))

  -- Each of the targets, asked from the attempt of this number on, threw what is tried again.
  abbrev pub Threw : ℕ → List Text → Type 0
  Threw attempt [] = Unit
  Threw attempt (target ∷ targets) =
      ((error : ForwardError) × (forward attempt target ≡ threw error) × (error ≢ body_too_large))
      × Threw (attempt + 1) targets

  -- The last target asked had this outcome, and all before it threw.
  abbrev pub Ended : ℕ → List Text → Attempt → Type 0
  Ended attempt tried a =
      (before : List Text) × (target : Text) × (tried ≡ before ++ target ∷ [])
      × Threw attempt before
      × (forward (attempt + length before) target ≡ a)

  Ended-again :
      (attempt : ℕ) (target : Text) (error : ForwardError) (tried : List Text) (a : Attempt)
      → forward attempt target ≡ threw error
      → error ≢ body_too_large
      → Ended (attempt + 1) tried a
      → Ended attempt (target ∷ tried) a
  Ended-again attempt target error tried a q small (before, t, split, thrown, e) = (
    target ∷ before,
    t,
    ap (◌∷◌ target) split,
    ((error, q, small), thrown),
    subst (λ n. forward n t ≡ a) (omega arith) e,
  )

  Ended-first :
      (attempt : ℕ) (target : Text) (a : Attempt)
      → forward attempt target ≡ a
      → Ended attempt (target ∷ []) a
  Ended-first attempt target a q =
      ([], target, refl, tt, subst (λ n. forward n target ≡ a) (omega arith) q)

  -- How the loop may end, with the attempts left and the number of the first. A response, or the
  -- exception of a body that is too large, comes from the last target asked; another exception does
  -- too, and no attempt is left; where no target is healthy, an attempt is. All targets asked
  -- before threw.
  abbrev pub Justified : ℕ → ℕ → List Text → Outcome → Type 0
  Justified left attempt tried (responded r) =
      Ended attempt tried (answered r) × (length tried ≤ left)
  Justified left attempt tried (failed body_too_large) =
      Ended attempt tried (threw body_too_large) × (length tried ≤ left)
  Justified left attempt tried (failed upstream_timeout) =
      Ended attempt tried (threw upstream_timeout) × (length tried ≡ left)
  Justified left attempt tried (failed other) =
      Ended attempt tried (threw other) × (length tried ≡ left)
  Justified left attempt tried no_healthy_target = Threw attempt tried × (length tried < left)

  Justified-again :
      (left attempt : ℕ) (target : Text) (error : ForwardError) (tried : List Text) (o : Outcome)
      → forward attempt target ≡ threw error
      → error ≢ body_too_large
      → Justified left (attempt + 1) tried o
      → Justified (suc left) attempt (target ∷ tried) o
  Justified-again left attempt target error tried (responded r) q small (h, n) =
      (Ended-again attempt target error tried (answered r) q small h, omega (arith, n))
  Justified-again left attempt target error tried (failed body_too_large) q small (h, n) =
      (Ended-again attempt target error tried (threw body_too_large) q small h, omega (arith, n))
  Justified-again left attempt target error tried (failed upstream_timeout) q small (h, n) =
      (Ended-again attempt target error tried (threw upstream_timeout) q small h, omega (arith, n))
  Justified-again left attempt target error tried (failed other) q small (h, n) =
      (Ended-again attempt target error tried (threw other) q small h, omega (arith, n))
  Justified-again left attempt target error tried no_healthy_target q small (h, n) =
      (((error, q, small), h), omega (arith, n))

  Justified-last :
      (attempt : ℕ) (target : Text) (e : ForwardError)
      → forward attempt target ≡ threw e
      → Justified 1 attempt (target ∷ []) (failed e)
  Justified-last attempt target body_too_large q = (Ended-first attempt target _ q, omega arith)
  Justified-last attempt target upstream_timeout q = (Ended-first attempt target _ q, refl)
  Justified-last attempt target other q = (Ended-first attempt target _ q, refl)

  retry_loop-Justified :
      (left attempt : ℕ) (e : ForwardError) (b : Balancer)
      → let f = retry_loop env backoff_ms (suc left) attempt e b in
        Justified (suc left) attempt f.tried f.outcome
  unfolding retry_loop
  retry_loop-Justified zero attempt e b =
      round_cases (λ f. Justified 1 attempt f.tried f.outcome) zero attempt e b
        (λ p. (tt, omega arith)) (λ target r p q. (Ended-first attempt target _ q, omega arith))
        (λ target p q. (Ended-first attempt target _ q, omega arith))
        (λ target error p q h. Justified-last attempt target error q)
  retry_loop-Justified (suc left) attempt e b =
      round_cases (λ f. Justified (suc (suc left)) attempt f.tried f.outcome) (suc left) attempt e b
        (λ p. (tt, omega arith)) (λ target r p q. (Ended-first attempt target _ q, omega arith))
        (λ target p q. (Ended-first attempt target _ q, omega arith))
        (λ target error p q h.
          let b' = report_failure (pick_target b (picked_at attempt)).1 target (known_at attempt) in
          let f = retry_loop env backoff_ms (suc left) (attempt + 1) error b' in
          Justified-again (suc left) attempt target error f.tried f.outcome q h
            (retry_loop-Justified left (attempt + 1) error b'))

-- A request is sent at most once, unless the route retries and the method is idempotent; then at
-- most `attempts` more times.
length-tried-le :
    (env : Environment) (retry : Option RetryConfig) (method : Text)
    (buffering : Option ForwardError) (b : Balancer)
    → length (forward_with_retry env retry method buffering b).tried ≤ max_attempts retry method
unfolding forward_with_retry
length-tried-le env retry method none b =
    tried-le env (backoff_of retry) (max_attempts retry method) 1 other b
length-tried-le env retry method (some error) b = elim (Bool-cases (is_eligible retry method)) [
  | inl yes' ↦ rw (yes', forward_with_retry) (omega arith)
  | inr no' ↦
      rw (no', forward_with_retry)
        (tried-le env (backoff_of retry) (max_attempts retry method) 1 other b)
]

max_attempts_pos :
    (retry : Option RetryConfig) (method : Text)
    → suc (max_attempts retry method - 1) ≡ max_attempts retry method
max_attempts_pos none method = refl
max_attempts_pos (some retry) method = ground arith

-- How a call ends, when its body has been read: with the response of the last target asked; with the
-- exception of the last target asked, if that is a body too large or the last attempt allowed; or
-- with NoHealthyTargetError, before the attempts are used up. Every target asked before the last (and
-- every one, before NoHealthyTargetError) threw, and no body too large: a response is never retried,
-- be it a 5xx. No more targets are asked than there are attempts.
pub forward_with_retry-Justified :
    (env : Environment) (retry : Option RetryConfig) (method : Text) (b : Balancer)
    → let f = forward_with_retry env retry method none b in
      Justified env (backoff_of retry) (max_attempts retry method) 1 f.tried f.outcome
unfolding forward_with_retry
forward_with_retry-Justified env retry method b =
    subst
      (λ n.
        let f = retry_loop env (backoff_of retry) n 1 other b in
        Justified env (backoff_of retry) n 1 f.tried f.outcome)
      (max_attempts_pos retry method)
      (retry_loop-Justified env (backoff_of retry) (max_attempts retry method - 1) 1 other b)

-- The balancer of a route with one target, which is healthy and has a breaker.
abbrev pub sole : Text → CircuitBreaker → Balancer
sole url c = record {
  targets = record { url = url; healthy = true; breaker = some c } ∷ [];
  cursor = 0;
}

abbrev pub on_trial : CircuitBreaker → CircuitBreaker
on_trial c = record c { state = half_open; half_open_trial_in_flight = true }

pick_target-sole :
    (url : Text) (c : CircuitBreaker) (now : ℕ)
    → pick_target (sole url c) now
      ≡ (if (can_request c now).0 then some url else none, sole url (can_request c now).1)
unfolding pick_target pick_from admit
pick_target-sole url c now = elim (Bool-cases (can_request c now).0) [ inl e ↦ rw e | inr e ↦ rw e ]

can_request_open :
    (c : CircuitBreaker) (now : ℕ)
    → c.state ≡ open_
    → c.opened_at + c.options.reset_timeout_ms ≤ now
    → can_request c now ≡ (true, on_trial c)
unfolding can_request
can_request_open c now at over = ground arith

retry_loop-sole :
    (env : Environment) (backoff_ms left : ℕ) (url : Text) (c : CircuitBreaker)
    → can_request c (env.picked_at 1) ≡ (true, on_trial c)
    → env.forward 1 url ≡ threw body_too_large
    → (retry_loop env backoff_ms (suc left) 1 other (sole url c)).balancer ≡ sole url (on_trial c)
unfolding retry_loop
retry_loop-sole env backoff_ms left url c trial large =
    let p : pick_target (sole url c) (env.picked_at 1) ≡ (some url, sole url (on_trial c)) =
      pick_target-sole url c (env.picked_at 1)
      ∙ ap (λ a. (if a.0 then some url else none, sole url a.1)) trial in
    rw (p, retry_loop, large) (ap (λ a. a.1) p)

lost :
    (url : Text) (c : CircuitBreaker) (later : ℕ)
    → ◌≡◌ {A = Option Text × Balancer}
        (
          if (can_request (on_trial c) later).0 then some url else none,
          sole url (can_request (on_trial c) later).1,
        )
        (none, sole url (on_trial c))
unfolding can_request
lost url c later = refl

-- A route has one target, whose breaker was open long enough, so that it gets a trial. If the body
-- of that request turns out too large, the target is not picked again at any time, and no pick
-- changes that.
pub trial_lost :
    (env : Environment) (retry : Option RetryConfig) (method url : Text) (c : CircuitBreaker)
    (later : ℕ)
    → c.state ≡ open_
    → c.opened_at + c.options.reset_timeout_ms ≤ env.picked_at 1
    → env.forward 1 url ≡ threw body_too_large
    → let b = (forward_with_retry env retry method none (sole url c)).balancer in
      pick_target b later ≡ (none, b)
unfolding forward_with_retry
trial_lost env retry method url c later at over large =
    let left = max_attempts retry method - 1 in
    let trial = can_request_open c (env.picked_at 1) at over in
    let e =
      subst
        (λ n.
          (retry_loop env (backoff_of retry) n 1 other (sole url c)).balancer
          ≡ sole url (on_trial c))
        (max_attempts_pos retry method)
        (retry_loop-sole env (backoff_of retry) left url c trial large) in
    rw e (pick_target-sole url (on_trial c) later ∙ lost url c later)
