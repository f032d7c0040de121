-- ===== src/WebSocket/Bridge/Events.antt =====
-- packages/gateway/src/websocket/proxy.ts: the listeners and the timers of `acceptClient`, with
-- `startHeartbeat`. A listener runs to its end before the next one. With a limiter, the event of a
-- message is its turn in the chain of promises, which keeps the order of the messages.
use apigateaway.Common.{
  ℕ, ◌-◌, Bool, true, false, not, ◌&&◌, ◌||◌, Option, none, some, List, [], ◌∷◌, ◌++◌,
  if◌then◌else◌, ◌<?◌, ◌≤?◌, Text, lit, is_some,
}
use apigateaway.Config.{WebSocketConfig, MessageRateLimitConfig}
use apigateaway.RateLimit.Types.{RateLimitResult}
use apigateaway.RateLimit.Store.{MemoryStore, store_consume}
use apigateaway.WebSocket.Bridge.{
  opened, closed, Side, client, upstream, Message, Bridge, BridgeAct, pinged, request_recorded,
  Stepped, then_do, is_open, is_closed, ready_of, with_ready, limiter_policy, blame, armed,
  terminate, terminate_both, close_both, on_side_closed, relay_close, relay,
}

pub data BridgeEvent : Type 0 where
  -- the client's handshake is done, with what is buffered for the client at each early message, and
  -- the time
  client_accepted : (Message → ℕ) → ℕ → BridgeEvent
  -- 'close' of the client's raw socket
  socket_closed : BridgeEvent
  -- 'message' of a side, with what is buffered for the other and the time
  message_from : Side → Message → ℕ → ℕ → BridgeEvent
  -- 'close' of a side, with its code
  closed_by : Side → ℕ → BridgeEvent
  errored_on : Side → BridgeEvent
  ponged : Side → BridgeEvent
  heartbeat : BridgeEvent
  idle_check : ℕ → BridgeEvent
  kill_fired : BridgeEvent
  -- the error of a message that was sent to the side
  send_failed : Side → BridgeEvent
  -- what the registry calls
  shutdown_called terminate_called : BridgeEvent

abbrev pub other : Side → Side
other client = upstream
other upstream = client

abbrev pub cause_of : Side → Text
cause_of client = lit "client"
cause_of upstream = lit "upstream"

-- The loop over the early messages.
unfoldable pub relay_early : WebSocketConfig → (Message → ℕ) → ℕ → List Message → Bridge → Stepped
relay_early cfg buffered now [] b = (b, [])
relay_early cfg buffered now (m ∷ ms) b =
    then_do (relay cfg client m (buffered m) now b) (relay_early cfg buffered now ms)

-- The listener of a side's 'close', after the side is closed.
unfoldable pub side_closed : Side → ℕ → Bridge → Stepped
side_closed side code b =
    then_do (armed (relay_close (other side) code (blame (cause_of side) b))) on_side_closed

abbrev pub close_early : Option ℕ → Bridge → Stepped
close_early none b = (b, [])
close_early (some code) b = side_closed upstream code b

unfoldable pub accept : WebSocketConfig → (Message → ℕ) → ℕ → Bridge → Stepped
accept cfg buffered now b =
    then_do (record b { accepted = true; client_ready = opened }, request_recorded ∷ [])
      (λ b. then_do (relay_early cfg buffered now b.early_messages b) (close_early b.early_closed))

-- The client's handshake is not completed.
unfoldable pub fail_handshake : Bridge → Stepped
fail_handshake b =
    then_do (terminate upstream (blame (lit "handshake_failed") b))
      (λ b. on_side_closed (record b { closed_sides = 1 }))

abbrev pub limited_relay :
    WebSocketConfig → Message → ℕ → ℕ → Bridge → RateLimitResult × MemoryStore → Stepped
limited_relay cfg m buffered now b (result, store) =
    let b' : Bridge = record b { limiter = some store } in
    let refused = close_both 1008 (lit "rate_limited") b' in
    let passed = relay cfg upstream m buffered now b' in if result.allowed then passed else refused

-- The policy stands beside the store.
abbrev pub relay_limited :
    WebSocketConfig
    → Message
    → ℕ
    → ℕ
    → Bridge
    → Option MemoryStore
    → Option MessageRateLimitConfig
    → Stepped
relay_limited cfg m buffered now b none limit = relay cfg upstream m buffered now b
relay_limited cfg m buffered now b (some store) none = (b, [])
relay_limited cfg m buffered now b (some store) (some limit) =
    let consumed = store_consume store (lit "connection") (limiter_policy limit) now 1 in
    let going_on = limited_relay cfg m buffered now b consumed in
    if b.finished || is_some b.first_cause then (b, []) else going_on

unfoldable pub from_client : WebSocketConfig → Message → ℕ → ℕ → Bridge → Stepped
from_client cfg m buffered now b =
    relay_limited cfg m buffered now b b.limiter cfg.message_rate_limit

unfoldable pub from_upstream : WebSocketConfig → Message → ℕ → ℕ → Bridge → Stepped
from_upstream cfg m buffered now b =
    let passed = relay cfg client m buffered now b in
    if b.accepted then passed else (record b { early_messages = b.early_messages ++ m ∷ [] }, [])

abbrev pub ping : Side → Bridge → List BridgeAct
ping side b = if is_open (ready_of side b) then pinged side ∷ [] else []

unfoldable pub beat : Bridge → Stepped
beat b =
    let dead = terminate_both (blame (lit "dead_peer") b) in
    if not b.client_alive || not b.upstream_alive then dead else (
      record b { client_alive = false; upstream_alive = false },
      ping client b ++ ping upstream b,
    )

unfoldable pub check_idle : WebSocketConfig → ℕ → Bridge → Stepped
check_idle cfg now b =
    let closed_down = close_both 1001 (lit "idle") b in
    if cfg.idle_timeout_ms ≤? now - b.last_activity then closed_down else (b, [])

-- The upstream's 'close', by whether the client is accepted: if not, it waits for the acceptance.
abbrev pub upstream_closed : Bool → ℕ → Bridge → Stepped
upstream_closed true code b = side_closed upstream code b
upstream_closed false code b = (record b { early_closed = some code }, [])

abbrev pub closed_on : Side → ℕ → Bridge → Stepped
closed_on client code b = side_closed client code (with_ready client closed b)
closed_on upstream code b = upstream_closed b.accepted code (with_ready upstream closed b)

abbrev pub alive : Side → Bridge → Bridge
alive client b = record b { client_alive = true }
alive upstream b = record b { upstream_alive = true }

-- When an event can come: `ws` says nothing of a socket after its 'close' nor before there is one,
-- and the timers run from the acceptance on until `finish` clears them.
abbrev pub is_running : Bridge → Bool
is_running b = b.accepted && not b.finished

abbrev pub can_speak : Side → Bridge → Bool
can_speak client b = b.accepted && not (is_closed b.client_ready)
can_speak upstream b = not (is_closed b.upstream_ready)

unfoldable pub can_happen : WebSocketConfig → BridgeEvent → Bridge → Bool
can_happen cfg (client_accepted buffered now) b = not b.accepted && not b.finished
can_happen cfg socket_closed b = not b.accepted && not b.finished
can_happen cfg (message_from side m buffered now) b = can_speak side b
can_happen cfg (closed_by side code) b = can_speak side b
can_happen cfg (errored_on side) b = b.accepted
can_happen cfg (ponged side) b = can_speak side b
can_happen cfg heartbeat b = is_running b && (0 <? cfg.ping_interval_ms)
can_happen cfg (idle_check now) b = is_running b && (0 <? cfg.idle_timeout_ms)
can_happen cfg kill_fired b = b.kill_armed && not b.finished
can_happen cfg (send_failed side) b = b.accepted
can_happen cfg shutdown_called b = not b.finished
can_happen cfg terminate_called b = not b.finished

unfoldable pub respond : WebSocketConfig → BridgeEvent → Bridge → Stepped
respond cfg (client_accepted buffered now) b = accept cfg buffered now b
respond cfg socket_closed b = fail_handshake b
respond cfg (message_from client m buffered now) b = from_client cfg m buffered now b
respond cfg (message_from upstream m buffered now) b = from_upstream cfg m buffered now b
respond cfg (closed_by side code) b = closed_on side code b
respond cfg (errored_on side) b = (blame (lit "error") b, [])
respond cfg (ponged side) b = (alive side b, [])
respond cfg heartbeat b = beat b
respond cfg (idle_check now) b = check_idle cfg now b
respond cfg kill_fired b = terminate_both b
respond cfg (send_failed side) b = terminate side b
respond cfg shutdown_called b = close_both 1001 (lit "shutdown") b
respond cfg terminate_called b = terminate_both b

-- An event that cannot come changes nothing.
unfoldable pub step : WebSocketConfig → BridgeEvent → Bridge → Stepped
step cfg e b = let responded = respond cfg e b in if can_happen cfg e b then responded else (b, [])

unfoldable pub run : WebSocketConfig → List BridgeEvent → Bridge → Stepped
run cfg [] b = (b, [])
run cfg (e ∷ es) b = then_do (step cfg e b) (run cfg es)
