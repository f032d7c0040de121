-- ===== src/Proxy/Retry/Targets.antt =====
-- A call changes no target of the balancer.
use apigateaway.Common.{
  ◌≡◌, refl, ◌∙◌, ℕ, zero, suc, ◌+◌, ◌≤?◌, Option, none, some, Text, Bool-cases, inl, inr,
}
use apigateaway.Config.{RetryConfig}
use apigateaway.Balancer.{Balancer, pick_target, report_failure}
use apigateaway.Balancer.Targets.{urls, urls-pick_target, urls-report_success, urls-report_failure}
use apigateaway.Proxy.Retry.{
  ForwardResult, ForwardError, Environment, other, is_eligible, max_attempts, backoff_of,
  forward_with_retry, report_status, retry_loop,
}
use apigateaway.Proxy.Retry.Laws.{round_cases}

urls-report_status :
    (b : Balancer) (target : Text) (r : ForwardResult) (now : ℕ)
    → urls (report_status b target r now) ≡ urls b
urls-report_status b target r now = elim (Bool-cases (500 ≤? r.status_code)) [
  | inl e ↦ rw e (urls-report_failure b target now)
  | inr e ↦ rw e (urls-report_success b target)
]

urls-retry_loop :
    (env : Environment) (backoff_ms left attempt : ℕ) (e : ForwardError) (b : Balancer)
    → urls (retry_loop env backoff_ms left attempt e b).balancer ≡ urls b
unfolding retry_loop
urls-retry_loop env backoff_ms zero attempt e b = refl
urls-retry_loop env backoff_ms (suc left) attempt e b =
    let now = env.known_at attempt in
    let picked = urls-pick_target b (env.picked_at attempt) in
    let b' = (pick_target b (env.picked_at attempt)).1 in
    round_cases env backoff_ms (λ f. urls f.balancer ≡ urls b) left attempt e b (λ p. picked)
      (λ target r p q. urls-report_status b' target r now ∙ picked) (λ target p q. picked)
      (λ target error p q h.
        urls-retry_loop env backoff_ms left (attempt + 1) error (report_failure b' target now)
        ∙ urls-report_failure b' target now
        ∙ picked)

pub urls-forward_with_retry :
    (env : Environment) (retry : Option RetryConfig) (method : Text)
    (buffering : Option ForwardError) (b : Balancer)
    → urls (forward_with_retry env retry method buffering b).balancer ≡ urls b
unfolding forward_with_retry
urls-forward_with_retry env retry method none b =
    urls-retry_loop env (backoff_of retry) (max_attempts retry method) 1 other b
urls-forward_with_retry env retry method (some error) b =
    elim (Bool-cases (is_eligible retry method)) [
      | inl y ↦ rw (y, forward_with_retry) refl
      | inr n ↦
          rw (n, forward_with_retry)
            (urls-retry_loop env (backoff_of retry) (max_attempts retry method) 1 other b)
    ]
