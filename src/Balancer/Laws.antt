-- ===== src/Balancer/Laws.antt =====
-- Which target is picked, and what a pick changes.
use apigateaway.Common.{
  All, subst, map, ℕ, suc, zero, ◌+◌, ◌-◌, ◌%◌, ◌≤◌, ◌<◌, ◌≡◌, refl, ap, ◌∙◌, sym, Bool, true,
  false, ◌&&◌, Option, none, some, List, [], ◌∷◌, ◌++◌, Text, length, get_elem?, set, drop, take,
  find, arith, Bool-cases, inl, inr, ◌<?◌, get_elem?-append_left, get_elem?-append_right,
  get_elem?-drop, get_elem?-take, length-drop, length-take, length-append, get_elem?_lt, set_same,
  drop_cons, drop_all, length-set,
}
use mathlib.Core.Option
use native.Mathlib.Nat.{mod-eq_of_lt, mod-lt, mod-add-mod}
use apigateaway.Breaker.{CircuitBreaker, can_request}
use apigateaway.Breaker.Laws.{can_request_refused}
use apigateaway.Balancer.{TargetState, Balancer, admit_breaker, admit, pick_from, pick_target}

mod_below : (m n : ℕ) → m < n → m % n ≡ m
mod_below m n h = mod-eq_of_lt h

mod_once : (m n : ℕ) → n ≤ m → m < n + n → m % n ≡ m - n
mod_once m n h k = grind arith

-- The targets in the order in which they are asked: from the cursor on, and round to it.
abbrev pub in_turn : Balancer → List TargetState
in_turn b = drop b.cursor b.targets ++ take b.cursor b.targets

length-in_turn :
    (b : Balancer) → b.cursor < length b.targets → length (in_turn b) ≡ length b.targets
length-in_turn b h = omega (
  arith,
  length-append (drop b.cursor b.targets) (take b.cursor b.targets),
  length-drop b.cursor b.targets,
  length-take b.cursor b.targets,
)

get_elem?-in_turn :
    (b : Balancer) (i : ℕ)
    → b.cursor < length b.targets
    → i < length b.targets
    → get_elem? (in_turn b) i ≡ get_elem? b.targets ((b.cursor + i) % length b.targets)
get_elem?-in_turn b i h k =
    let n = length b.targets in
    let c = b.cursor in
    let ahead = drop c b.targets in
    let behind = take c b.targets in
    let left = length-drop c b.targets in
    elim (Bool-cases (c + i <? n)) [
      | inl below ↦
          get_elem?-append_left ahead behind i (ground (arith, left))
          ∙ get_elem?-drop c i b.targets
          ∙ ap (get_elem? b.targets) (sym (mod_below (c + i) n (ground arith)))
      | inr above ↦
          let e : i ≡ length ahead + (c + i - n) = ground (arith, left) in
          ap (get_elem? (ahead ++ behind)) e
          ∙ get_elem?-append_right ahead behind (c + i - n)
          ∙ get_elem?-take c (c + i - n) b.targets (ground arith)
          ∙ ap (get_elem? b.targets) (sym (mod_once (c + i) n (ground arith) (ground arith)))
    ]

admit_breaker_refused :
    (o : Option CircuitBreaker) (now : ℕ)
    → (admit_breaker o now).0 ≡ false
    → (admit_breaker o now).1 ≡ o
unfolding can_request
admit_breaker_refused none now h = cc
admit_breaker_refused (some b) now h = ap some (can_request_refused b now h)

-- A refusal leaves the target as it was.
admit_refused : (t : TargetState) (now : ℕ) → (admit t now).0 ≡ false → (admit t now).1 ≡ t
unfolding admit
admit_refused t now h = ground (arith, admit_breaker_refused t.breaker now)

abbrev is_admitted : ℕ → TargetState → Bool
is_admitted now t = (admit t now).0

pick_from-in_turn :
    (rounds i : ℕ) (b : Balancer) (now : ℕ)
    → b.cursor < length b.targets
    → rounds + i ≡ length b.targets
    → (pick_from rounds i b now).0
      ≡ Option.map (λ (t : TargetState). t.url) (find (is_admitted now) (drop i (in_turn b)))
unfolding pick_from
pick_from-in_turn zero i b now h e =
    let k : i ≡ length (in_turn b) = omega (arith, length-in_turn b h) in
    rw (k, drop_all (in_turn b))
pick_from-in_turn (suc rounds) i b now h e =
    let index = (b.cursor + i) % length b.targets in
    let (t, at) = get_elem?_lt (in_turn b) i (omega (arith, length-in_turn b h)) in
    let at' = sym (get_elem?-in_turn b i h (omega arith)) ∙ at in
    rw (at', pick_from, drop_cons i (in_turn b) t at)
      (elim (Bool-cases (admit t now).0) [
        | inl taken ↦ rw (taken)
        | inr refused ↦
            let keep : set b.targets index (admit t now).1 ≡ b.targets =
              set_same b.targets index _ (rw (admit_refused t now refused) at') in
            rw (refused, keep)
              (pick_from-in_turn rounds (i + 1) b now h (omega arith)
                ∙ ap
                    (λ k.
                      Option.map (λ (u : TargetState). u.url)
                        (find (is_admitted now) (drop k (in_turn b))))
                    {x = i + 1} {y = suc i} (omega arith))
      ])

abbrev pub is_let_through : Option CircuitBreaker → ℕ → Bool
is_let_through none now = true
is_let_through (some c) now = (can_request c now).0

-- Healthy, and let through by its breaker, if it has one.
abbrev pub is_available : ℕ → TargetState → Bool
is_available now t = t.healthy && is_let_through t.breaker now

is_admitted-is_available : (now : ℕ) (t : TargetState) → is_admitted now t ≡ is_available now t
unfolding admit
is_admitted-is_available now t = elim (Bool-cases t.healthy) [
  | inl e ↦ rw e (of_breaker t.breaker)
  | inr e ↦ rw e refl
]
  where
    of_breaker : (o : Option CircuitBreaker) → (admit_breaker o now).0 ≡ is_let_through o now
    of_breaker none = refl
    of_breaker (some c) = refl

find_same :
    (now : ℕ) (ts : List TargetState) → find (is_admitted now) ts ≡ find (is_available now) ts
find_same now [] = refl
find_same now (t ∷ ts) = rw (is_admitted-is_available now t, find_same now ts) refl

-- A pick takes the first target, from the cursor on and round to it, that is healthy and whose
-- breaker lets the request through; it fails only if there is none.
pub pick_target-in_turn :
    (b : Balancer) (now : ℕ)
    → b.cursor < length b.targets
    → (pick_target b now).0
      ≡ Option.map (λ (t : TargetState). t.url) (find (is_available now) (in_turn b))
unfolding pick_target
pick_target-in_turn b now h =
    pick_from-in_turn (length b.targets) 0 b now h (omega arith)
    ∙ ap (Option.map (λ (t : TargetState). t.url)) (find_same now (in_turn b))

-- The cursor points at a target.
abbrev pub IsPlaced : Balancer → Type 0
IsPlaced b = b.cursor < length b.targets

abbrev pub urls : Balancer → List Text
urls b = map (λ (t : TargetState). t.url) b.targets

map_url-set :
    (ts : List TargetState) (i : ℕ) (t t' : TargetState)
    → get_elem? ts i ≡ some t
    → t'.url ≡ t.url
    → map (λ (u : TargetState). u.url) (set ts i t') ≡ map (λ (u : TargetState). u.url) ts
map_url-set [] i t t' e same = refl
map_url-set (x ∷ ts) zero t t' e same = ground arith
map_url-set (x ∷ ts) (suc i) t t' e same = ap (◌∷◌ x.url) (map_url-set ts i t t' e same)

url-admit : (t : TargetState) (now : ℕ) → (admit t now).1.url ≡ t.url
unfolding admit
url-admit t now = ground arith

pick_from-IsPlaced :
    (rounds i : ℕ) (b : Balancer) (now : ℕ)
    → IsPlaced b
    → IsPlaced (pick_from rounds i b now).1 × (urls (pick_from rounds i b now).1 ≡ urls b)
unfolding pick_from
pick_from-IsPlaced zero i b now h = (h, refl)
pick_from-IsPlaced (suc rounds) i b now h =
    let n = length b.targets in
    let index = (b.cursor + i) % n in
    let (t, at) = get_elem?_lt b.targets index (mod-lt (b.cursor + i) (omega arith)) in
    let t' = (admit t now).1 in
    let long = length-set b.targets index t' in
    let named = map_url-set b.targets index t t' at (url-admit t now) in
    let (placed, same) =
      pick_from-IsPlaced rounds (i + 1) (record b { targets = set b.targets index t' }) now
        (omega (arith, long)) in
    rw (at, pick_from)
      (elim (Bool-cases (admit t now).0) [
        | inl taken ↦ rw taken (rw long (mod-lt (index + 1) (omega arith)), named)
        | inr refused ↦ rw refused (placed, same ∙ named)
      ])

-- A pick leaves the cursor at a target, and the targets' addresses and their order as they were.
pick_target-IsPlaced :
    (b : Balancer) (now : ℕ)
    → IsPlaced b
    → IsPlaced (pick_target b now).1 × (urls (pick_target b now).1 ≡ urls b)
unfolding pick_target
pick_target-IsPlaced b now h = pick_from-IsPlaced (length b.targets) 0 b now h

-- The answers to a number of picks, one after the other.
pub picks : ℕ → Balancer → ℕ → List (Option Text)
picks zero b now = []
picks (suc k) b now = (pick_target b now).0 ∷ picks k (pick_target b now).1 now

-- Healthy, and with no breaker.
abbrev pub IsPlain : TargetState → Type 0
IsPlain t = (t.healthy ≡ true) × (t.breaker ≡ none)

All-get_elem? :
    (P : TargetState → Type 0) (ts : List TargetState) (i : ℕ) (t : TargetState)
    → All P ts
    → get_elem? ts i ≡ some t
    → P t
All-get_elem? P [] i t h e = cc
All-get_elem? P (x ∷ ts) zero t h e = subst P (cc) h.0
All-get_elem? P (x ∷ ts) (suc i) t h e = All-get_elem? P ts i t h.1 e

admit_plain : (t : TargetState) (now : ℕ) → IsPlain t → admit t now ≡ (true, t)
unfolding admit
admit_plain t now h = ground arith

pick_from_plain :
    (rounds : ℕ) (b : Balancer) (now : ℕ) (t : TargetState)
    → IsPlaced b
    → IsPlain t
    → get_elem? b.targets b.cursor ≡ some t
    → pick_from (suc rounds) 0 b now
      ≡ (some t.url, record b { cursor = (b.cursor + 1) % length b.targets })
unfolding pick_from
pick_from_plain rounds b now t h plain at =
    let e : (b.cursor + 0) % length b.targets ≡ b.cursor =
      ap (λ k. k % length b.targets) (omega arith) ∙ mod_below b.cursor (length b.targets) h in
    rw (e, at, pick_from, admit_plain t now plain, e, set_same b.targets b.cursor t at)

pick_target_plain :
    (b : Balancer) (now : ℕ) (t : TargetState)
    → IsPlaced b
    → All IsPlain b.targets
    → get_elem? b.targets b.cursor ≡ some t
    → pick_target b now ≡ (some t.url, record b { cursor = (b.cursor + 1) % length b.targets })
unfolding pick_target
pick_target_plain b now t h plain at =
    let e : suc (length b.targets - 1) ≡ length b.targets = omega arith in
    subst
      (λ k.
        pick_from k 0 b now ≡ (some t.url, record b { cursor = (b.cursor + 1) % length b.targets }))
      e
      (pick_from_plain (length b.targets - 1) b now t h
        (All-get_elem? IsPlain b.targets b.cursor t plain at) at)

-- Round robin: with targets that are healthy and have no breakers, pick number `i` takes the target
-- `i` places after the cursor.
picks_round_robin :
    (k i : ℕ) (b : Balancer) (now : ℕ)
    → IsPlaced b
    → All IsPlain b.targets
    → i < k
    → get_elem? (picks k b now) i
      ≡ some (
          Option.map
            (λ (t : TargetState). t.url)
            (get_elem? b.targets ((b.cursor + i) % length b.targets)))
unfolding picks
picks_round_robin zero i b now h plain lt = absurd (omega arith)
picks_round_robin (suc k) zero b now h plain lt =
    let (t, at) = get_elem?_lt b.targets b.cursor h in
    let e : (b.cursor + 0) % length b.targets ≡ b.cursor =
      ap (λ k. k % length b.targets) (omega arith) ∙ mod_below b.cursor (length b.targets) h in
    rw (pick_target_plain b now t h plain at, e, at)
picks_round_robin (suc k) (suc i) b now h plain lt =
    let (t, at) = get_elem?_lt b.targets b.cursor h in
    let n = length b.targets in
    let next = record b { cursor = (b.cursor + 1) % n } in
    let turn : ((b.cursor + 1) % n + i) % n ≡ (b.cursor + suc i) % n =
      mod-add-mod (b.cursor + 1) n i ∙ ap (λ m. m % n) (omega arith) in
    rw (pick_target_plain b now t h plain at) (
      picks_round_robin k i next now (mod-lt (b.cursor + 1) (omega arith)) plain (omega arith)
      ∙ ap (λ m. some (Option.map (λ (u : TargetState). u.url) (get_elem? b.targets m))) turn)
