-- ===== src/WebSocket/Bridge.antt =====
-- packages/gateway/src/websocket/proxy.ts: `acceptClient`, which joins the client's connection to the
-- upstream's. The parts of its state and the functions on it.
pub mod Events
pub mod Quiet
pub mod Once
pub mod Closing
pub mod Laws
pub mod Ending
use apigateaway.Common.{
  ℕ, ◌+◌, ◌*◌, Bool, true, false, not, ◌&&◌, ◌||◌, Option, none, some, List, [], ◌∷◌, ◌++◌, map,
  if◌then◌else◌, ◌==◌, ◌<?◌, Text, lit, or_else,
}
use apigateaway.Config.{WebSocketConfig, MessageRateLimitConfig}
use apigateaway.RateLimit.Types.{Policy}
use apigateaway.RateLimit.Store.{MemoryStore, create_memory_store}
use apigateaway.WebSocket.Connect.{is_sendable_close_code}

-- `readyState`, where CONNECTING is that of a client which has not been accepted yet
pub data Ready : Type 0 where
  connecting opened closing closed : Ready

pub data Side : Type 0 where
  client upstream : Side

-- The bytes, and whether they are binary.
pub record Message : Type 0 where
  pub bytes : List ℕ
  pub is_binary : Bool

pub record Bridge : Type 0 where
  -- whether `client` is set
  pub accepted : Bool
  pub client_ready : Ready
  pub upstream_ready : Ready
  pub finished : Bool
  pub first_cause : Option Text
  pub closed_sides : ℕ
  -- whether `killTimer` is set
  pub kill_armed : Bool
  pub last_activity : ℕ
  -- the store of the limiter, if there is one
  pub limiter : Option MemoryStore
  pub client_alive : Bool
  pub upstream_alive : Bool
  pub early_messages : List Message
  pub early_closed : Option ℕ

-- The calls on the two sockets, the registry, the metrics and the usage buffer.
pub data BridgeAct : Type 0 where
  relayed : Side → Message → BridgeAct
  message_counted : Side → BridgeAct
  close_sent : Side → Option ℕ → BridgeAct
  terminated : Side → BridgeAct
  pinged : Side → BridgeAct
  request_recorded : BridgeAct
  unregistered : BridgeAct
  closing_recorded : Text → BridgeAct

abbrev pub Stepped : Type 0
Stepped = Bridge × List BridgeAct

abbrev pub then_do : Stepped → (Bridge → Stepped) → Stepped
then_do (b, acts) next = let (b', more) = next b in (b', acts ++ more)

abbrev pub ready_of : Side → Bridge → Ready
ready_of client b = b.client_ready
ready_of upstream b = b.upstream_ready

abbrev pub with_ready : Side → Ready → Bridge → Bridge
with_ready client r b = record b { client_ready = r }
with_ready upstream r b = record b { upstream_ready = r }

abbrev pub is_open : Ready → Bool
is_open connecting = false
is_open opened = true
is_open closing = false
is_open closed = false

abbrev pub is_closed : Ready → Bool
is_closed connecting = false
is_closed opened = false
is_closed closing = false
is_closed closed = true

-- `createMessageLimiter`
abbrev pub limiter_store : Option MessageRateLimitConfig → Option MemoryStore
limiter_store none = none
limiter_store (some c) = some (create_memory_store c.algorithm)

abbrev pub limiter_policy : MessageRateLimitConfig → Policy
limiter_policy c = record { limit = c.limit; window_ms = c.window_sec * 1000; burst = c.burst }

-- The state before the client's handshake, with what the upstream has said by then.
abbrev pub new_bridge : WebSocketConfig → List Message → Option ℕ → ℕ → Bridge
new_bridge cfg early_messages early_closed now = record {
  accepted = false;
  client_ready = connecting;
  upstream_ready = elim early_closed [ none ↦ opened | some code ↦ closed ];
  finished = false;
  first_cause = none;
  closed_sides = 0;
  kill_armed = false;
  last_activity = now;
  limiter = limiter_store cfg.message_rate_limit;
  client_alive = true;
  upstream_alive = true;
  early_messages = early_messages;
  early_closed = early_closed;
}

-- `firstCause ??= cause`
abbrev pub blame : Text → Bridge → Bridge
blame cause b = record b { first_cause = some (or_else b.first_cause cause) }

unfoldable pub finish : Bridge → Stepped
finish b = if b.finished then (b, []) else (
  record b { finished = true },
  unregistered ∷ closing_recorded (or_else b.first_cause (lit "unknown")) ∷ [],
)

unfoldable pub arm_kill : Bridge → Bridge
arm_kill b = if b.kill_armed || b.finished then b else record b { kill_armed = true }

-- `ws.terminate()`, which does nothing on a socket that is closed
unfoldable pub terminate : Side → Bridge → Stepped
terminate side b =
    if is_closed (ready_of side b)
    then (b, [])
    else (with_ready side closing b, terminated side ∷ [])

-- `client?.terminate()`
abbrev pub terminate_client : Bridge → Stepped
terminate_client b = let done = terminate client b in if b.accepted then done else (b, [])

abbrev pub terminate_both : Bridge → Stepped
terminate_both b = then_do (terminate_client b) (terminate upstream)

-- `if (ws && ws.readyState === WebSocket.OPEN) ws.close(code, text)`; a client that is not accepted is
-- not open.
unfoldable pub close_side : Side → ℕ → Bridge → Stepped
close_side side code b =
    if is_open (ready_of side b)
    then (with_ready side closing b, close_sent side (some code) ∷ [])
    else (b, [])

abbrev pub armed : Stepped → Stepped
armed (b, acts) = (arm_kill b, acts)

unfoldable pub close_both : ℕ → Text → Bridge → Stepped
close_both code cause b =
    armed (then_do (close_side client code (blame cause b)) (close_side upstream code))

unfoldable pub on_side_closed : Bridge → Stepped
on_side_closed b =
    let b' = record b { closed_sides = b.closed_sides + 1 } in
    let done = finish b' in if b'.closed_sides == 2 then done else (b', [])

abbrev pub is_live : Ready → Bool
is_live connecting = true
is_live opened = true
is_live closing = false
is_live closed = false

unfoldable pub relay_close : Side → ℕ → Bridge → Stepped
relay_close peer code b =
    let hard = terminate peer b in
    if not (is_live (ready_of peer b))
    then (b, [])
    else if code == 1005
    then (with_ready peer closing b, close_sent peer none ∷ [])
    else if is_sendable_close_code code
    then (with_ready peer closing b, close_sent peer (some code) ∷ [])
    else hard

-- The message goes to a side, whose `bufferedAmount` is given with the time.
unfoldable pub relay : WebSocketConfig → Side → Message → ℕ → ℕ → Bridge → Stepped
relay cfg to message buffered now b =
    let pressed = close_both 1013 (lit "backpressure") b in
    if not (is_open (ready_of to b))
    then (b, [])
    else if cfg.max_buffered_bytes <? buffered
    then pressed
    else (record b { last_activity = now }, relayed to message ∷ message_counted to ∷ [])
