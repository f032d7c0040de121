-- ===== src/WebSocket/Bridge/Once.antt =====
-- When the bridge is finished, and what it has done by then.
use apigateaway.Common.{
  ◌≡◌, refl, ap, sym, ◌∙◌, ◌⊎◌, inl, inr, ℕ, ◌+◌, Bool, true, false, ◌==◌, some, List, [], ◌∷◌,
  ◌++◌, if◌then◌else◌, Text, is_some, keep, All, All-append, Bool-cases,
}
use apigateaway.WebSocket.Bridge.{
  Ready, Bridge, BridgeAct, unregistered, closing_recorded, Stepped, then_do, is_closed,
}
use apigateaway.WebSocket.Bridge.Quiet.{IsSendable, is_final, Quiet, calm-finals, calm-IsSendable}

abbrev count : Ready → ℕ
count r = if is_closed r then 1 else 0

-- The sides that are closed.
abbrev pub closed_count : Bridge → ℕ
closed_count b = count b.client_ready + count b.upstream_ready

-- The bridge counts the sides that are closed, and is finished exactly if both are. Before the client
-- is accepted it is finished only by the failure of the client's handshake.
abbrev pub IsSound : Bridge → Type 0
IsSound b = elim b.accepted [
  | true ↦ (b.closed_sides ≡ closed_count b) × (b.finished ≡ (closed_count b == 2))
  | false ↦
      (is_closed b.client_ready ≡ false)
      × (is_closed b.upstream_ready ≡ is_some b.early_closed)
      × (b.finished ≡ false → b.closed_sides ≡ 0)
]

-- What a step has done: nothing final, or all of it, with the first cause.
abbrev pub Finals : Bridge → Stepped → Type 0
Finals b (b', acts) =
    ((b'.finished ≡ b.finished) × (keep is_final acts ≡ []))
    ⊎ ((b.finished ≡ false)
        × (b'.finished ≡ true)
        × (c : Text) × (b'.first_cause ≡ some c)
        × (keep is_final acts ≡ unregistered ∷ closing_recorded c ∷ []))

-- An accepted client, and a side that is closed, stay so.
abbrev pub Stays : Bridge → Bridge → Type 0
Stays b b' =
    (b.accepted ≡ true → b'.accepted ≡ true)
    × (is_closed b.client_ready ≡ true → is_closed b'.client_ready ≡ true)
    × (is_closed b.upstream_ready ≡ true → is_closed b'.upstream_ready ≡ true)

pub Stays-trans : (a b c : Bridge) → Stays a b → Stays b c → Stays a c
Stays-trans a b c (p, q, r) (p', q', r') = (λ h. p' (p h), λ h. q' (q h), λ h. r' (r h))

pub Stays-Quiet : (b : Bridge) (s : Stepped) → Quiet b s → Stays b s.0
Stays-Quiet b s q = (λ h. q.accepted ∙ h, λ h. q.client_closed ∙ h, λ h. q.upstream_closed ∙ h)

pub record Moves (b : Bridge) (s : Stepped) : Type 0 where
  pub sound : IsSound s.0
  pub cause : (c : Text) → b.first_cause ≡ some c → s.0.first_cause ≡ some c
  pub sendable : All IsSendable s.1
  pub finals : Finals b s
  pub stays : Stays b s.0

keep-append :
    (p : BridgeAct → Bool) (xs ys : List BridgeAct) → keep p (xs ++ ys) ≡ keep p xs ++ keep p ys
keep-append p [] ys = refl
keep-append p (x ∷ xs) ys = elim (Bool-cases (p x)) [
  | inl e ↦ rw e (ap (λ zs. x ∷ zs) (keep-append p xs ys))
  | inr e ↦ rw e (keep-append p xs ys)
]

pub Moves-then :
    (b : Bridge) (s : Stepped) (next : Bridge → Stepped)
    → Moves b s
    → Moves s.0 (next s.0)
    → Moves b (then_do s next)
Moves-then b (b', acts) next p q = record {
  sound = q.sound;
  cause = λ c h. q.cause c (p.cause c h);
  sendable = All-append IsSendable acts (next b').1 p.sendable q.sendable;
  finals = join p.finals q.finals;
  stays = Stays-trans b b' (next b').0 p.stays q.stays;
}
  where
    kept : keep is_final (acts ++ (next b').1) ≡ keep is_final acts ++ keep is_final (next b').1
    kept = keep-append is_final acts (next b').1

    join : Finals b (b', acts) → Finals b' (next b') → Finals b (then_do (b', acts) next)
    join (inl (f, k)) (inl (g, l)) = inl (g ∙ f, rw (kept, k) l)
    join (inl (f, k)) (inr (n, y, c, e, l)) = inr (sym f ∙ n, y, c, e, rw (kept, k) l)
    join (inr (n, y, c, e, k)) (inl (g, l)) = inr (n, g ∙ y, c, q.cause c e, rw (kept, k, l) refl)
    join (inr (n, y, c, e, k)) (inr (m, z, d, f, l)) = cc

-- A quiet step keeps the bridge sound.
pub Quiet-Moves : (b : Bridge) (s : Stepped) → IsSound b → Quiet b s → Moves b s
Quiet-Moves b s h q = record {
  sound = kept b.accepted refl;
  cause = q.cause;
  sendable = calm-IsSendable s.1 q.calm;
  finals = inl (q.finished, calm-finals s.1 q.calm);
  stays = Stays-Quiet b s q;
}
  where
    kept : (a : Bool) → b.accepted ≡ a → IsSound s.0
    kept true e =
        let (n, f) = rw e at h in
        rw (q.accepted, e, q.client_closed, q.upstream_closed) (q.closed_sides ∙ n, q.finished ∙ f)
    kept false e =
        let (c, u, n) = rw e at h in
        rw (q.accepted, e)
          (
            q.client_closed ∙ c,
            q.upstream_closed ∙ u ∙ ap is_some (sym q.early),
            λ g. q.closed_sides ∙ n (sym q.finished ∙ g),
          )
