-- ===== src/WebSocket/Bridge/Laws.antt =====
-- What holds of the bridge after any events.
use apigateaway.Common.{
  ◌≡◌, refl, ◌⊎◌, inl, inr, ℕ, ◌-◌, Bool, true, false, not, ◌||◌, ◌≤?◌, Option, none, some, List,
  [], ◌∷◌, ◌++◌, if◌then◌else◌, Text, lit, is_some, keep, All, All-append, Bool-cases, and_true,
}
use apigateaway.Config.{WebSocketConfig, MessageRateLimitConfig}
use apigateaway.RateLimit.Types.{RateLimitResult}
use apigateaway.RateLimit.Store.{MemoryStore, store_consume}
use apigateaway.WebSocket.Connect.{is_sendable_close_code}
use apigateaway.WebSocket.Bridge.{
  Side, client, upstream, Message, Bridge, unregistered, closing_recorded, Stepped, is_open,
  ready_of, blame, terminate_both, close_both, relay, new_bridge, limiter_policy,
}
use apigateaway.WebSocket.Bridge.Events.{
  BridgeEvent, client_accepted, socket_closed, message_from, closed_by, errored_on, ponged,
  heartbeat, idle_check, kill_fired, send_failed, shutdown_called, terminate_called, limited_relay,
  relay_limited, from_client, from_upstream, ping, beat, check_idle, can_happen, alive, respond,
  step, run,
}
use apigateaway.WebSocket.Bridge.Quiet.{
  IsCalm, IsSendable, is_final, Quiet, Quiet-refl, Quiet-then, blame-Quiet, terminate-Quiet,
  terminate_both-Quiet, close_both-Quiet, relay-Quiet,
}
use apigateaway.WebSocket.Bridge.Once.{IsSound, Moves, Moves-then, Quiet-Moves}
use apigateaway.WebSocket.Bridge.Closing.{
  closed_on-Moves, closed_early-Moves, fail_handshake-Moves, accept-Moves,
}

code_1001 : is_sendable_close_code 1001 ≡ true
unfolding is_sendable_close_code
code_1001 = refl

code_1008 : is_sendable_close_code 1008 ≡ true
unfolding is_sendable_close_code
code_1008 = refl

-- A change of the fields that the relation does not read.
Quiet-from : (b b' : Bridge) (s : Stepped) → Quiet b (b', []) → Quiet b' s → Quiet b s
Quiet-from b b' s p q = Quiet-then b (b', []) (λ x. s) p q

limiter-Quiet : (b : Bridge) (store : MemoryStore) → Quiet b (record b { limiter = some store }, [])
limiter-Quiet b store = record {
  accepted = refl;
  finished = refl;
  closed_sides = refl;
  early = refl;
  client_closed = refl;
  upstream_closed = refl;
  cause = λ c h. h;
  calm = tt;
}

limited_relay-Quiet :
    (cfg : WebSocketConfig) (m : Message) (buffered now : ℕ) (b : Bridge)
    (consumed : RateLimitResult × MemoryStore)
    → Quiet b (limited_relay cfg m buffered now b consumed)
limited_relay-Quiet cfg m buffered now b (result, store) = elim (Bool-cases result.allowed) [
  | inl e ↦
      rw e (Quiet-from b b' _ (limiter-Quiet b store) (relay-Quiet cfg upstream m buffered now b'))
  | inr e ↦ rw e (
      Quiet-from b b' _ (limiter-Quiet b store)
        (close_both-Quiet 1008 (lit "rate_limited") b' code_1008))
]
  where
    b' : Bridge
    b' = record b { limiter = some store }

relay_limited-Quiet :
    (cfg : WebSocketConfig) (m : Message) (buffered now : ℕ) (b : Bridge)
    (store : Option MemoryStore) (limit : Option MessageRateLimitConfig)
    → Quiet b (relay_limited cfg m buffered now b store limit)
relay_limited-Quiet cfg m buffered now b none limit = relay-Quiet cfg upstream m buffered now b
relay_limited-Quiet cfg m buffered now b (some store) none = Quiet-refl b
relay_limited-Quiet cfg m buffered now b (some store) (some limit) =
    either (b.finished || is_some b.first_cause)
  where
    consumed : RateLimitResult × MemoryStore
    consumed = store_consume store (lit "connection") (limiter_policy limit) now 1

    either :
        (t : Bool) → Quiet b (if t then (b, []) else limited_relay cfg m buffered now b consumed)
    either true = Quiet-refl b
    either false = limited_relay-Quiet cfg m buffered now b consumed

from_upstream-Quiet :
    (cfg : WebSocketConfig) (m : Message) (buffered now : ℕ) (b : Bridge)
    → Quiet b (from_upstream cfg m buffered now b)
unfolding from_upstream
from_upstream-Quiet cfg m buffered now b = either b.accepted
  where
    either :
        (t : Bool)
        → Quiet b (
            if t
            then relay cfg client m buffered now b
            else (record b { early_messages = b.early_messages ++ m ∷ [] }, []))
    either true = relay-Quiet cfg client m buffered now b
    either false = record {
      accepted = refl;
      finished = refl;
      closed_sides = refl;
      early = refl;
      client_closed = refl;
      upstream_closed = refl;
      cause = λ c h. h;
      calm = tt;
    }

ping-IsCalm : (side : Side) (b : Bridge) → All IsCalm (ping side b)
ping-IsCalm side b = elim (Bool-cases (is_open (ready_of side b))) [
  | inl e ↦ rw e ((refl, tt), tt)
  | inr e ↦ rw e tt
]

beat-Quiet : (b : Bridge) → Quiet b (beat b)
unfolding beat
beat-Quiet b = either (not b.client_alive || not b.upstream_alive)
  where
    either :
        (t : Bool)
        → Quiet b (
            if t then terminate_both (blame (lit "dead_peer") b) else (
              record b { client_alive = false; upstream_alive = false },
              ping client b ++ ping upstream b,
            ))
    either true =
        Quiet-from b (blame (lit "dead_peer") b) _ (blame-Quiet (lit "dead_peer") b)
          (terminate_both-Quiet (blame (lit "dead_peer") b))
    either false = record {
      accepted = refl;
      finished = refl;
      closed_sides = refl;
      early = refl;
      client_closed = refl;
      upstream_closed = refl;
      cause = λ c h. h;
      calm =
          All-append IsCalm (ping client b) (ping upstream b) (ping-IsCalm client b)
            (ping-IsCalm upstream b);
    }

check_idle-Quiet : (cfg : WebSocketConfig) (now : ℕ) (b : Bridge) → Quiet b (check_idle cfg now b)
unfolding check_idle
check_idle-Quiet cfg now b = either (cfg.idle_timeout_ms ≤? now - b.last_activity)
  where
    either : (t : Bool) → Quiet b (if t then close_both 1001 (lit "idle") b else (b, []))
    either true = close_both-Quiet 1001 (lit "idle") b code_1001
    either false = Quiet-refl b

alive-Quiet : (side : Side) (b : Bridge) → Quiet b (alive side b, [])
alive-Quiet client b = record {
  accepted = refl;
  finished = refl;
  closed_sides = refl;
  early = refl;
  client_closed = refl;
  upstream_closed = refl;
  cause = λ c h. h;
  calm = tt;
}
alive-Quiet upstream b = record {
  accepted = refl;
  finished = refl;
  closed_sides = refl;
  early = refl;
  client_closed = refl;
  upstream_closed = refl;
  cause = λ c h. h;
  calm = tt;
}

true-not : (t : Bool) → not t ≡ true → t ≡ false
true-not true h = cc
true-not false h = refl

-- The answer to an event that can come.
respond-Moves :
    (cfg : WebSocketConfig) (e : BridgeEvent) (b : Bridge)
    → IsSound b
    → can_happen cfg e b ≡ true
    → Moves b (respond cfg e b)
unfolding respond can_happen from_client
respond-Moves cfg (client_accepted buffered now) b h c =
    let (a, f) = and_true _ _ c in accept-Moves cfg buffered now b h (true-not _ a) (true-not _ f)
respond-Moves cfg socket_closed b h c =
    let (a, f) = and_true _ _ c in fail_handshake-Moves b h (true-not _ a) (true-not _ f)
respond-Moves cfg (message_from client m buffered now) b h c =
    Quiet-Moves b (from_client cfg m buffered now b) h
      (relay_limited-Quiet cfg m buffered now b b.limiter cfg.message_rate_limit)
respond-Moves cfg (message_from upstream m buffered now) b h c =
    Quiet-Moves b (from_upstream cfg m buffered now b) h (from_upstream-Quiet cfg m buffered now b)
respond-Moves cfg (closed_by client code) b h c =
    let (a, o) = and_true _ _ c in closed_on-Moves client code b h a (true-not _ o)
respond-Moves cfg (closed_by upstream code) b h c = elim (Bool-cases b.accepted) [
  | inl a ↦ closed_on-Moves upstream code b h a (true-not _ c)
  | inr a ↦ closed_early-Moves code b h a
]
respond-Moves cfg (errored_on side) b h c =
    Quiet-Moves b (blame (lit "error") b, []) h (blame-Quiet (lit "error") b)
respond-Moves cfg (ponged side) b h c = Quiet-Moves b (alive side b, []) h (alive-Quiet side b)
respond-Moves cfg heartbeat b h c = Quiet-Moves b (beat b) h (beat-Quiet b)
respond-Moves cfg (idle_check now) b h c =
    Quiet-Moves b (check_idle cfg now b) h (check_idle-Quiet cfg now b)
respond-Moves cfg kill_fired b h c = Quiet-Moves b (terminate_both b) h (terminate_both-Quiet b)
respond-Moves cfg (send_failed side) b h c = Quiet-Moves b _ h (terminate-Quiet side b)
respond-Moves cfg shutdown_called b h c =
    Quiet-Moves b _ h (close_both-Quiet 1001 (lit "shutdown") b code_1001)
respond-Moves cfg terminate_called b h c =
    Quiet-Moves b (terminate_both b) h (terminate_both-Quiet b)

pub step-Moves :
    (cfg : WebSocketConfig) (e : BridgeEvent) (b : Bridge) → IsSound b → Moves b (step cfg e b)
unfolding step
step-Moves cfg e b h = elim (Bool-cases (can_happen cfg e b)) [
  | inl c ↦ rw (c, step) (respond-Moves cfg e b h c)
  | inr c ↦ rw (c, step) (Quiet-Moves b (b, []) h (Quiet-refl b))
]

pub run-Moves :
    (cfg : WebSocketConfig) (es : List BridgeEvent) (b : Bridge)
    → IsSound b
    → Moves b (run cfg es b)
unfolding run
run-Moves cfg [] b h = Quiet-Moves b (b, []) h (Quiet-refl b)
run-Moves cfg (e ∷ es) b h =
    let m = step-Moves cfg e b h in
    Moves-then b (step cfg e b) (run cfg es) m (run-Moves cfg es _ m.sound)

new_bridge-IsSound :
    (cfg : WebSocketConfig) (ms : List Message) (early : Option ℕ) (now : ℕ)
    → IsSound (new_bridge cfg ms early now)
new_bridge-IsSound cfg ms none now = (refl, refl, λ h. refl)
new_bridge-IsSound cfg ms (some code) now = (refl, refl, λ h. refl)

-- Whatever happens to a bridge: once the client is accepted, it is finished exactly if both of its
-- sides are closed, and it counts the sides that are.
pub run-IsSound :
    (cfg : WebSocketConfig) (ms : List Message) (early : Option ℕ) (now : ℕ) (es : List BridgeEvent)
    → IsSound (run cfg es (new_bridge cfg ms early now)).0
run-IsSound cfg ms early now es =
    (run-Moves cfg es (new_bridge cfg ms early now) (new_bridge-IsSound cfg ms early now)).sound

-- Whatever happens to a bridge: it is taken off the registry, and its closing recorded, once if it is
-- finished and never otherwise, and what is recorded is the first cause.
pub run-finals :
    (cfg : WebSocketConfig) (ms : List Message) (early : Option ℕ) (now : ℕ) (es : List BridgeEvent)
    → let (b, acts) = run cfg es (new_bridge cfg ms early now) in
      ((b.finished ≡ false) × (keep is_final acts ≡ []))
      ⊎ ((b.finished ≡ true)
          × (c : Text) × (b.first_cause ≡ some c)
          × (keep is_final acts ≡ unregistered ∷ closing_recorded c ∷ []))
run-finals cfg ms early now es =
    elim (run-Moves cfg es (new_bridge cfg ms early now)
      (new_bridge-IsSound cfg ms early now)).finals [
        | inl x ↦ inl x
        | inr (n, y, c, e, k) ↦ inr (y, c, e, k)
      ]

-- Whatever happens to a bridge, every close code that it sends is one that may be sent.
pub run-IsSendable :
    (cfg : WebSocketConfig) (ms : List Message) (early : Option ℕ) (now : ℕ) (es : List BridgeEvent)
    → All IsSendable (run cfg es (new_bridge cfg ms early now)).1
run-IsSendable cfg ms early now es =
    (run-Moves cfg es (new_bridge cfg ms early now) (new_bridge-IsSound cfg ms early now)).sendable
