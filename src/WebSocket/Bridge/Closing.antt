-- ===== src/WebSocket/Bridge/Closing.antt =====
-- The steps of the bridge in which a side closes.
use apigateaway.Common.{
  ◌≡◌, refl, ap, sym, subst, ◌∙◌, inl, inr, ℕ, ◌+◌, true, false, ◌==◌, Option, none, some, List, [],
  ◌∷◌, ◌++◌, Text, lit, or_else, is_some, keep, All-append, Bool-cases,
}
use apigateaway.Config.{WebSocketConfig}
use apigateaway.WebSocket.Bridge.{
  opened, closed, Side, client, upstream, Message, Bridge, BridgeAct, Stepped, then_do, is_closed,
  ready_of, with_ready, blame, finish, armed, terminate, on_side_closed, relay_close, relay,
}
use apigateaway.WebSocket.Bridge.Events.{
  side_closed, other, cause_of, relay_early, close_early, accept, fail_handshake, closed_on,
  upstream_closed,
}
use apigateaway.WebSocket.Bridge.Quiet.{
  IsSendable, is_final, Quiet, Quiet-refl, Quiet-then, calm-finals, calm-IsSendable, blame-Quiet,
  armed-Quiet, relay_close-Quiet, relay-Quiet, terminate-Quiet,
}
use apigateaway.WebSocket.Bridge.Once.{
  closed_count, IsSound, Finals, Stays, Stays-trans, Stays-Quiet, Moves, Moves-then, Quiet-Moves,
}

-- Quiet acts before a step that moves.
Quiet-before :
    (b : Bridge) (s : Stepped) (next : Bridge → Stepped)
    → Quiet b s
    → Moves s.0 (next s.0)
    → Moves b (then_do s next)
Quiet-before b (b', acts) next q m = record {
  sound = m.sound;
  cause = λ c h. m.cause c (q.cause c h);
  sendable = All-append IsSendable acts (next b').1 (calm-IsSendable acts q.calm) m.sendable;
  finals = join acts (calm-finals acts q.calm) m.finals;
  stays = Stays-trans b b' (next b').0 (Stays-Quiet b (b', acts) q) m.stays;
}
  where
    kept :
        (xs ys : List BridgeAct)
        → keep is_final xs ≡ []
        → keep is_final (xs ++ ys) ≡ keep is_final ys
    kept [] ys h = refl
    kept (x ∷ xs) ys h = elim (Bool-cases (is_final x)) [
      | inl e ↦ impossible (rw e at h)
      | inr e ↦ rw e (kept xs ys (rw e at h))
    ]
      where
        impossible : x ∷ keep is_final xs ≡ [] → keep is_final ((x ∷ xs) ++ ys) ≡ keep is_final ys
        impossible h = cc

    join :
        (acts : List BridgeAct)
        → keep is_final acts ≡ []
        → Finals b' (next b')
        → Finals b ((next b').0, acts ++ (next b').1)
    join acts k (inl (g, l)) = inl (g ∙ q.finished, kept acts (next b').1 k ∙ l)
    join acts k (inr (n, y, c, e, l)) =
        inr (sym q.finished ∙ n, y, c, e, kept acts (next b').1 k ∙ l)

-- The second side to close finishes the bridge.
on_side_closed-Moves :
    (b : Bridge) (c : Text)
    → b.accepted ≡ true
    → b.finished ≡ false
    → b.first_cause ≡ some c
    → b.closed_sides + 1 ≡ closed_count b
    → Moves b (on_side_closed b)
unfolding on_side_closed finish
on_side_closed-Moves b c a f e n = elim (Bool-cases (b.closed_sides + 1 == 2)) [
  | inl t ↦
      rw (t, on_side_closed, finish, f)
        (record {
          sound = rw a (n, sym (rw n at t));
          cause = λ d h. h;
          sendable = (tt, (tt, tt));
          finals = inr (refl, refl, c, e, rw e refl);
          stays = (λ h. h, λ h. h, λ h. h);
        })
  | inr t ↦
      rw (t, on_side_closed)
        (record {
          sound = rw a (n, f ∙ sym (rw n at t));
          cause = λ d h. h;
          sendable = tt;
          finals = inl (refl, refl);
          stays = (λ h. h, λ h. h, λ h. h);
        })
]

side_closed-Moves :
    (side : Side) (code : ℕ) (b : Bridge)
    → b.accepted ≡ true
    → b.finished ≡ false
    → b.closed_sides + 1 ≡ closed_count b
    → Moves b (side_closed side code b)
unfolding side_closed
side_closed-Moves side code b a f n =
    Quiet-before b s on_side_closed
      (Quiet-then b (b', []) (λ b. armed (relay_close (other side) code b)) (blame-Quiet cause b) q)
      (on_side_closed-Moves s.0 (or_else b.first_cause cause) (q.accepted ∙ a) (q.finished ∙ f)
        (q.cause (or_else b.first_cause cause) refl)
        (rw (q.closed_sides, q.client_closed, q.upstream_closed) n))
  where
    cause : Text
    cause = cause_of side

    b' : Bridge
    b' = blame cause b

    s : Stepped
    s = armed (relay_close (other side) code b')

    q : Quiet b' s
    q = armed-Quiet b' (relay_close (other side) code b') (relay_close-Quiet (other side) code b')

-- A step is one from a state that differs in no field that matters to it.
Moves-from :
    (b b' : Bridge) (s : Stepped)
    → b'.finished ≡ b.finished
    → b'.first_cause ≡ b.first_cause
    → Stays b b'
    → Moves b' s
    → Moves b s
Moves-from b b' s f c k m = record {
  sound = m.sound;
  cause = λ d h. m.cause d (c ∙ h);
  sendable = m.sendable;
  finals = elim m.finals [
    | inl (g, k) ↦ inl (g ∙ f, k)
    | inr (n, y, d, e, k) ↦ inr (sym f ∙ n, y, d, e, k)
  ];
  stays = Stays-trans b b' s.0 k m.stays;
}

client_count :
    (b : Bridge)
    → is_closed b.client_ready ≡ false
    → closed_count (with_ready client closed b) ≡ closed_count b + 1
client_count b h =
    rw h (elim (Bool-cases (is_closed b.upstream_ready)) [ inl e ↦ rw e refl | inr e ↦ rw e refl ])

upstream_count :
    (b : Bridge)
    → is_closed b.upstream_ready ≡ false
    → closed_count (with_ready upstream closed b) ≡ closed_count b + 1
upstream_count b h =
    rw h (elim (Bool-cases (is_closed b.client_ready)) [ inl e ↦ rw e refl | inr e ↦ rw e refl ])

-- Before its second side closes, an accepted bridge is not finished.
one_open :
    (b : Bridge) (side : Side)
    → (b.finished ≡ (closed_count b == 2))
    → is_closed (ready_of side b) ≡ false
    → b.finished ≡ false
one_open b client f h =
    f
    ∙ rw h
        (elim (Bool-cases (is_closed b.upstream_ready)) [ inl e ↦ rw e refl | inr e ↦ rw e refl ])
one_open b upstream f h =
    f
    ∙ rw h (elim (Bool-cases (is_closed b.client_ready)) [ inl e ↦ rw e refl | inr e ↦ rw e refl ])

-- An accepted bridge has a side closed.
pub closed_on-Moves :
    (side : Side) (code : ℕ) (b : Bridge)
    → IsSound b
    → b.accepted ≡ true
    → is_closed (ready_of side b) ≡ false
    → Moves b (closed_on side code b)
closed_on-Moves client code b h a o =
    let (n, f) = rw a at h in
    Moves-from b (with_ready client closed b) _ refl refl (λ h. h, λ h. refl, λ h. h)
      (side_closed-Moves client code (with_ready client closed b) a (one_open b client f o)
        (ap (λ k. k + 1) n ∙ sym (client_count b o)))
closed_on-Moves upstream code b h a o =
    let (n, f) = rw a at h in
    let b' = with_ready upstream closed b in
    subst (λ x. Moves b (upstream_closed x code b')) (sym a)
      (Moves-from b b' _ refl refl (λ h. h, λ h. h, λ h. refl)
        (side_closed-Moves upstream code b' a (one_open b upstream f o)
          (ap (λ k. k + 1) n ∙ sym (upstream_count b o))))

pub closed_on-closed :
    (side : Side) (code : ℕ) (b : Bridge)
    → IsSound b
    → b.accepted ≡ true
    → is_closed (ready_of side b) ≡ false
    → is_closed (ready_of side (closed_on side code b).0) ≡ true
closed_on-closed client code b h a o =
    let (n, f) = rw a at h in
    let b' = with_ready client closed b in
    let (x, c, u) =
      (side_closed-Moves client code b' a (one_open b client f o)
        (ap (λ k. k + 1) n ∙ sym (client_count b o))).stays in
    c refl
closed_on-closed upstream code b h a o =
    let (n, f) = rw a at h in
    let b' = with_ready upstream closed b in
    let (x, c, u) =
      (side_closed-Moves upstream code b' a (one_open b upstream f o)
        (ap (λ k. k + 1) n ∙ sym (upstream_count b o))).stays in
    subst (λ t. is_closed (upstream_closed t code b').0.upstream_ready ≡ true) (sym a) (u refl)

-- The upstream closes before the client is accepted.
pub closed_early-Moves :
    (code : ℕ) (b : Bridge) → IsSound b → b.accepted ≡ false → Moves b (closed_on upstream code b)
closed_early-Moves code b h a =
    let (c, u, n) = rw a at h in
    subst (λ x. Moves b (upstream_closed x code (with_ready upstream closed b))) (sym a)
      (record {
        sound = rw a (c, refl, n);
        cause = λ d h. h;
        sendable = tt;
        finals = inl (refl, refl);
        stays = (λ h. h, λ h. h, λ h. refl);
      })

-- Where the client is not accepted, one closed side is all.
lone_side-Moves :
    (b : Bridge) (c : Text)
    → b.accepted ≡ false
    → b.finished ≡ false
    → is_closed b.client_ready ≡ false
    → is_closed b.upstream_ready ≡ is_some b.early_closed
    → b.first_cause ≡ some c
    → Moves b (on_side_closed (record b { closed_sides = 1 }))
unfolding on_side_closed finish
lone_side-Moves b c a f o u e =
    rw (on_side_closed, finish, f)
      (record {
        sound = rw a (o, u, λ g. cc);
        cause = λ d h. h;
        sendable = (tt, (tt, tt));
        finals = inr (refl, refl, c, e, rw e refl);
        stays = (λ h. h, λ h. h, λ h. h);
      })

-- The client's handshake fails: the bridge is finished at once.
pub fail_handshake-Moves :
    (b : Bridge) → IsSound b → b.accepted ≡ false → b.finished ≡ false → Moves b (fail_handshake b)
unfolding fail_handshake
fail_handshake-Moves b h a f =
    let (c, u, n) = rw a at h in
    Quiet-before b s (λ b. on_side_closed (record b { closed_sides = 1 }))
      (Quiet-then b (b', []) (terminate upstream) (blame-Quiet cause b) q)
      (lone_side-Moves s.0 (or_else b.first_cause cause) (q.accepted ∙ a) (q.finished ∙ f)
        (q.client_closed ∙ c) (q.upstream_closed ∙ u ∙ ap is_some (sym q.early))
        (q.cause (or_else b.first_cause cause) refl))
  where
    cause : Text
    cause = lit "handshake_failed"

    b' : Bridge
    b' = blame cause b

    s : Stepped
    s = terminate upstream b'

    q : Quiet b' s
    q = terminate-Quiet upstream b'

relay_early-Quiet :
    (cfg : WebSocketConfig) (buffered : Message → ℕ) (now : ℕ) (ms : List Message) (b : Bridge)
    → Quiet b (relay_early cfg buffered now ms b)
unfolding relay_early
relay_early-Quiet cfg buffered now [] b = Quiet-refl b
relay_early-Quiet cfg buffered now (m ∷ ms) b =
    Quiet-then b (relay cfg client m (buffered m) now b) (relay_early cfg buffered now ms)
      (relay-Quiet cfg client m (buffered m) now b) (relay_early-Quiet cfg buffered now ms _)

accepted_bridge : Bridge → Bridge
accepted_bridge b = record b { accepted = true; client_ready = opened }

-- What follows the acceptance: the early messages, then the early 'close'.
after_accept-Moves :
    (cfg : WebSocketConfig) (buffered : Message → ℕ) (now : ℕ) (b : Bridge) (early : Option ℕ)
    → b.accepted ≡ true
    → b.finished ≡ false
    → is_closed b.client_ready ≡ false
    → is_closed b.upstream_ready ≡ is_some early
    → b.closed_sides ≡ 0
    → Moves b (then_do (relay_early cfg buffered now b.early_messages b) (close_early early))
after_accept-Moves cfg buffered now b none a f c u n =
    let m = Quiet-Moves b s (rw (a, c, u) (n, f)) q in
    Moves-then b s (close_early none) m (Quiet-Moves s.0 (s.0, []) m.sound (Quiet-refl s.0))
  where
    s : Stepped
    s = relay_early cfg buffered now b.early_messages b

    q : Quiet b s
    q = relay_early-Quiet cfg buffered now b.early_messages b
after_accept-Moves cfg buffered now b (some code) a f c u n =
    Quiet-before b s (close_early (some code)) q (
      side_closed-Moves upstream code s.0 (q.accepted ∙ a) (q.finished ∙ f) (
        ap (λ k. k + 1) (q.closed_sides ∙ n)
        ∙ sym (rw (q.client_closed, q.upstream_closed, c, u) refl)))
  where
    s : Stepped
    s = relay_early cfg buffered now b.early_messages b

    q : Quiet b s
    q = relay_early-Quiet cfg buffered now b.early_messages b

pub accept-Moves :
    (cfg : WebSocketConfig) (buffered : Message → ℕ) (now : ℕ) (b : Bridge)
    → IsSound b
    → b.accepted ≡ false
    → b.finished ≡ false
    → Moves b (accept cfg buffered now b)
unfolding accept accepted_bridge
accept-Moves cfg buffered now b h a f =
    let (c, u, n) = rw a at h in
    let m =
      after_accept-Moves cfg buffered now (accepted_bridge b) b.early_closed refl f refl u (n f) in
    let (x, y, z) = m.stays in
    record {
      sound = m.sound;
      cause = m.cause;
      sendable = (tt, m.sendable);
      finals = m.finals;
      stays = (λ h. x refl, λ h. open_client c h, z);
    }
  where
    open_client :
        is_closed b.client_ready ≡ false
        → is_closed b.client_ready ≡ true
        → is_closed (accept cfg buffered now b).0.client_ready ≡ true
    open_client c h = cc
