-- ===== src/Balancer/Targets.antt =====
-- No operation changes which targets a balancer has.
use apigateaway.Common.{
  ◌≡◌, refl, ap, ◌∙◌, ℕ, suc, zero, ◌+◌, ◌%◌, some, List, [], ◌∷◌, map, Text, text_eq, length,
  get_elem?, set, Bool-cases, Option-cases, inl, inr,
}
use apigateaway.Breaker.{CircuitBreaker}
use apigateaway.Balancer.{
  TargetState, Balancer, new_target, create_balancer, admit, pick_from, pick_target, update_first,
  report_success, report_failure,
}

abbrev pub urls_of : List TargetState → List Text
urls_of targets = map (λ (t : TargetState). t.url) targets

abbrev pub urls : Balancer → List Text
urls b = urls_of b.targets

urls-create_balancer_of :
    (options : _) (us : List Text) → urls_of (map (new_target options) us) ≡ us
urls-create_balancer_of options [] = refl
urls-create_balancer_of options (u ∷ us) = ap (◌∷◌ u) (urls-create_balancer_of options us)

pub urls-create_balancer : (us : List Text) (options : _) → urls (create_balancer us options) ≡ us
unfolding create_balancer
urls-create_balancer us options = urls-create_balancer_of options us

url-admit : (t : TargetState) (now : ℕ) → (admit t now).1.url ≡ t.url
unfolding admit
url-admit t now = elim (Bool-cases t.healthy) [ inl e ↦ rw e refl | inr e ↦ rw e refl ]

urls-set :
    (ts : List TargetState) (i : ℕ) (t t' : TargetState)
    → get_elem? ts i ≡ some t
    → t'.url ≡ t.url
    → urls_of (set ts i t') ≡ urls_of ts
urls-set [] i t t' e u = refl
urls-set (s ∷ ts) zero t t' e u = let same : s ≡ t = some_inj e in rw (u, same) refl
  where
    some_inj : some s ≡ some t → s ≡ t
    some_inj q = cc
urls-set (s ∷ ts) (suc i) t t' e u = ap (◌∷◌ s.url) (urls-set ts i t t' e u)

urls-pick_from :
    (rounds i : ℕ) (b : Balancer) (now : ℕ) → urls (pick_from rounds i b now).1 ≡ urls b
unfolding pick_from
urls-pick_from zero i b now = refl
urls-pick_from (suc rounds) i b now =
    let index = (b.cursor + i) % length b.targets in
    elim (Option-cases (get_elem? b.targets index)) [
      | inl n ↦ rw (n, pick_from) refl
      | inr (t, n) ↦
          let targets' = set b.targets index (admit t now).1 in
          let kept = urls-set b.targets index t (admit t now).1 n (url-admit t now) in
          elim (Bool-cases (admit t now).0) [
            | inl a ↦ rw (n, a, pick_from) kept
            | inr a ↦
                rw (n, a, pick_from)
                  (urls-pick_from rounds (i + 1) (record b { targets = targets' }) now ∙ kept)
          ]
    ]

pub urls-pick_target : (b : Balancer) (now : ℕ) → urls (pick_target b now).1 ≡ urls b
unfolding pick_target
urls-pick_target b now = urls-pick_from (length b.targets) 0 b now

urls-update_first :
    (f : CircuitBreaker → CircuitBreaker) (url : Text) (ts : List TargetState)
    → urls_of (update_first f url ts) ≡ urls_of ts
unfolding update_first
urls-update_first f url [] = refl
urls-update_first f url (t ∷ ts) = elim (Bool-cases (text_eq t.url url)) [
  | inl e ↦ rw (e, update_first) refl
  | inr e ↦ rw (e, update_first) (ap (◌∷◌ t.url) (urls-update_first f url ts))
]

pub urls-report_success : (b : Balancer) (url : Text) → urls (report_success b url) ≡ urls b
unfolding report_success
urls-report_success b url = urls-update_first _ url b.targets

pub urls-report_failure :
    (b : Balancer) (url : Text) (now : ℕ) → urls (report_failure b url now) ≡ urls b
unfolding report_failure
urls-report_failure b url now = urls-update_first _ url b.targets
