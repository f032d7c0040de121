-- ===== src/WebSocket/Bridge/Quiet.antt =====
-- The functions of the bridge that close no side: what they leave as it is.
use apigateaway.Common.{
  ◌≡◌, refl, sym, ◌∙◌, ℕ, Bool, true, false, not, ◌||◌, ◌==◌, ◌<?◌, none, some, List, [], ◌∷◌, Text,
  lit, keep, All, All-append, Bool-cases, inl, inr,
}
use apigateaway.Config.{WebSocketConfig}
use apigateaway.WebSocket.Connect.{is_sendable_close_code}
use apigateaway.WebSocket.Bridge.{
  Ready, connecting, opened, closing, closed, Side, client, upstream, Message, Bridge, BridgeAct,
  relayed, message_counted, close_sent, terminated, pinged, request_recorded, unregistered,
  closing_recorded, Stepped, then_do, is_open, is_closed, is_live, ready_of, with_ready, blame,
  arm_kill, armed, terminate, terminate_client, terminate_both, close_side, close_both, relay_close,
  relay,
}

-- A code that is sent is one that may be.
abbrev pub IsSendable : BridgeAct → Type 0
IsSendable (close_sent side (some code)) = is_sendable_close_code code ≡ true
IsSendable (close_sent side none) = Unit
IsSendable (relayed side m) = Unit
IsSendable (message_counted side) = Unit
IsSendable (terminated side) = Unit
IsSendable (pinged side) = Unit
IsSendable request_recorded = Unit
IsSendable unregistered = Unit
IsSendable (closing_recorded cause) = Unit

-- The acts of `finish`.
abbrev pub is_final : BridgeAct → Bool
is_final (close_sent side code) = false
is_final (relayed side m) = false
is_final (message_counted side) = false
is_final (terminated side) = false
is_final (pinged side) = false
is_final request_recorded = false
is_final unregistered = true
is_final (closing_recorded cause) = true

abbrev pub IsCalm : BridgeAct → Type 0
IsCalm act = (is_final act ≡ false) × IsSendable act

pub record Quiet (b : Bridge) (s : Stepped) : Type 0 where
  pub accepted : s.0.accepted ≡ b.accepted
  pub finished : s.0.finished ≡ b.finished
  pub closed_sides : s.0.closed_sides ≡ b.closed_sides
  pub early : s.0.early_closed ≡ b.early_closed
  pub client_closed : is_closed s.0.client_ready ≡ is_closed b.client_ready
  pub upstream_closed : is_closed s.0.upstream_ready ≡ is_closed b.upstream_ready
  pub cause : (c : Text) → b.first_cause ≡ some c → s.0.first_cause ≡ some c
  pub calm : All IsCalm s.1

pub calm-finals : (acts : List BridgeAct) → All IsCalm acts → keep is_final acts ≡ []
calm-finals [] h = refl
calm-finals (a ∷ acts) ((f, s), hs) = rw f (calm-finals acts hs)

pub calm-IsSendable : (acts : List BridgeAct) → All IsCalm acts → All IsSendable acts
calm-IsSendable [] h = tt
calm-IsSendable (a ∷ acts) ((f, s), hs) = (s, calm-IsSendable acts hs)

-- The state changed only where no field of the relation reads it.
pub Quiet-acts : (b : Bridge) (acts : List BridgeAct) → All IsCalm acts → Quiet b (b, acts)
Quiet-acts b acts h = record {
  accepted = refl;
  finished = refl;
  closed_sides = refl;
  early = refl;
  client_closed = refl;
  upstream_closed = refl;
  cause = λ c h. h;
  calm = h;
}

pub Quiet-refl : (b : Bridge) → Quiet b (b, [])
Quiet-refl b = Quiet-acts b [] tt

-- One quiet function after another.
pub Quiet-then :
    (b : Bridge) (s : Stepped) (next : Bridge → Stepped)
    → Quiet b s
    → Quiet s.0 (next s.0)
    → Quiet b (then_do s next)
Quiet-then b (b', acts) next p q = record {
  accepted = q.accepted ∙ p.accepted;
  finished = q.finished ∙ p.finished;
  closed_sides = q.closed_sides ∙ p.closed_sides;
  early = q.early ∙ p.early;
  client_closed = q.client_closed ∙ p.client_closed;
  upstream_closed = q.upstream_closed ∙ p.upstream_closed;
  cause = λ c h. q.cause c (p.cause c h);
  calm = All-append IsCalm acts (next b').1 p.calm q.calm;
}

pub blame-Quiet : (cause : Text) (b : Bridge) → Quiet b (blame cause b, [])
blame-Quiet cause b = record {
  accepted = refl;
  finished = refl;
  closed_sides = refl;
  early = refl;
  client_closed = refl;
  upstream_closed = refl;
  cause = λ c h. rw h refl;
  calm = tt;
}

arm_kill-Quiet : (b : Bridge) → Quiet b (arm_kill b, [])
unfolding arm_kill
arm_kill-Quiet b = elim (Bool-cases (b.kill_armed || b.finished)) [
  | inl e ↦ rw (e, arm_kill) (Quiet-refl b)
  | inr e ↦
      rw (e, arm_kill)
        (record {
          accepted = refl;
          finished = refl;
          closed_sides = refl;
          early = refl;
          client_closed = refl;
          upstream_closed = refl;
          cause = λ c h. h;
          calm = tt;
        })
]

pub armed-Quiet : (b : Bridge) (s : Stepped) → Quiet b s → Quiet b (armed s)
armed-Quiet b (b', acts) p = record {
  accepted = q.accepted ∙ p.accepted;
  finished = q.finished ∙ p.finished;
  closed_sides = q.closed_sides ∙ p.closed_sides;
  early = q.early ∙ p.early;
  client_closed = q.client_closed ∙ p.client_closed;
  upstream_closed = q.upstream_closed ∙ p.upstream_closed;
  cause = λ c h. q.cause c (p.cause c h);
  calm = p.calm;
}
  where
    q : Quiet b' (arm_kill b', [])
    q = arm_kill-Quiet b'

-- A side that is not closed is made to close.
with_ready-Quiet :
    (side : Side) (b : Bridge) (act : BridgeAct)
    → is_closed (ready_of side b) ≡ false
    → IsCalm act
    → Quiet b (with_ready side closing b, act ∷ [])
with_ready-Quiet client b act e h = record {
  accepted = refl;
  finished = refl;
  closed_sides = refl;
  early = refl;
  client_closed = sym e;
  upstream_closed = refl;
  cause = λ c h. h;
  calm = (h, tt);
}
with_ready-Quiet upstream b act e h = record {
  accepted = refl;
  finished = refl;
  closed_sides = refl;
  early = refl;
  client_closed = refl;
  upstream_closed = sym e;
  cause = λ c h. h;
  calm = (h, tt);
}

pub terminate-Quiet : (side : Side) (b : Bridge) → Quiet b (terminate side b)
unfolding terminate
terminate-Quiet side b = elim (Bool-cases (is_closed (ready_of side b))) [
  | inl e ↦ rw (e, terminate) (Quiet-refl b)
  | inr e ↦ rw (e, terminate) (with_ready-Quiet side b (terminated side) e (refl, tt))
]

terminate_client-Quiet : (b : Bridge) → Quiet b (terminate_client b)
terminate_client-Quiet b = elim (Bool-cases b.accepted) [
  | inl e ↦ simp e (terminate-Quiet client b)
  | inr e ↦ simp e (Quiet-refl b)
]

pub terminate_both-Quiet : (b : Bridge) → Quiet b (terminate_both b)
terminate_both-Quiet b =
    Quiet-then b (terminate_client b) (terminate upstream) (terminate_client-Quiet b)
      (terminate-Quiet upstream _)

open_closed : (r : Ready) → is_open r ≡ true → is_closed r ≡ false
open_closed connecting h = refl
open_closed opened h = refl
open_closed closing h = refl
open_closed closed h = cc

live_closed : (r : Ready) → not (is_live r) ≡ false → is_closed r ≡ false
live_closed connecting h = refl
live_closed opened h = refl
live_closed closing h = refl
live_closed closed h = cc

close_side-Quiet :
    (side : Side) (code : ℕ) (b : Bridge)
    → is_sendable_close_code code ≡ true
    → Quiet b (close_side side code b)
unfolding close_side
close_side-Quiet side code b s = elim (Bool-cases (is_open (ready_of side b))) [
  | inl e ↦
      rw (e, close_side)
        (with_ready-Quiet side b (close_sent side (some code)) (open_closed (ready_of side b) e)
          (refl, s))
  | inr e ↦ rw (e, close_side) (Quiet-refl b)
]

pub close_both-Quiet :
    (code : ℕ) (cause : Text) (b : Bridge)
    → is_sendable_close_code code ≡ true
    → Quiet b (close_both code cause b)
unfolding close_both
close_both-Quiet code cause b s =
    armed-Quiet b (then_do (close_side client code (blame cause b)) (close_side upstream code)) (
      Quiet-then b (close_side client code (blame cause b)) (close_side upstream code)
        (Quiet-then b (blame cause b, []) (close_side client code) (blame-Quiet cause b)
          (close_side-Quiet client code (blame cause b) s))
        (close_side-Quiet upstream code _ s))

pub relay_close-Quiet : (peer : Side) (code : ℕ) (b : Bridge) → Quiet b (relay_close peer code b)
unfolding relay_close
relay_close-Quiet peer code b = elim (Bool-cases (not (is_live (ready_of peer b)))) [
  | inl e ↦ rw (e, relay_close) (Quiet-refl b)
  | inr e ↦ elim (Bool-cases (code == 1005)) [
    | inl f ↦
        rw (e, f, relay_close)
          (with_ready-Quiet peer b (close_sent peer none) (live_closed (ready_of peer b) e)
            (refl, tt))
    | inr f ↦ elim (Bool-cases (is_sendable_close_code code)) [
      | inl s ↦
          rw (e, f, s, relay_close)
            (with_ready-Quiet peer b (close_sent peer (some code)) (live_closed (ready_of peer b) e)
              (refl, s))
      | inr s ↦ rw (e, f, s, relay_close) (terminate-Quiet peer b)
    ]
  ]
]

backpressure_code : is_sendable_close_code 1013 ≡ true
unfolding is_sendable_close_code
backpressure_code = refl

pub relay-Quiet :
    (cfg : WebSocketConfig) (to : Side) (m : Message) (buffered now : ℕ) (b : Bridge)
    → Quiet b (relay cfg to m buffered now b)
unfolding relay
relay-Quiet cfg to m buffered now b = elim (Bool-cases (not (is_open (ready_of to b)))) [
  | inl e ↦ rw (e, relay) (Quiet-refl b)
  | inr e ↦ elim (Bool-cases (cfg.max_buffered_bytes <? buffered)) [
    | inl f ↦ rw (e, f, relay) (close_both-Quiet 1013 (lit "backpressure") b backpressure_code)
    | inr f ↦
        rw (e, f, relay)
          (record {
            accepted = refl;
            finished = refl;
            closed_sides = refl;
            early = refl;
            client_closed = refl;
            upstream_closed = refl;
            cause = λ c h. h;
            calm = ((refl, tt), ((refl, tt), tt));
          })
  ]
]
