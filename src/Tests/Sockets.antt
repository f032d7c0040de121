-- ===== src/Tests/Sockets.antt =====
-- The WebSocket proxy and the Redis scripts at concrete inputs.
use apigateaway.Common.{
  ℕ, ◌≡◌, ◌≤◌, ◌+◌, refl, true, false, none, some, List, [], ◌∷◌, Text, lit, ◌⊎◌, keep, All, length,
  arith,
}
use apigateaway.Config.{WebSocketConfig}
use apigateaway.RateLimit.Types.{Policy, IsProper}
use apigateaway.RateLimit.Trace.{Call, decisions}
use apigateaway.RateLimit.FixedWindow.{fixed_window}
use apigateaway.RateLimit.TokenBucket.{token_bucket}
use apigateaway.RateLimit.LeakyBucket.{leaky_bucket}
use apigateaway.RateLimit.SlidingCounter.{sliding_counter}
use apigateaway.RateLimit.Redis.{script_decisions}
use apigateaway.RateLimit.Redis.Hashes.{
  fixed_window_script, token_bucket_script, leaky_bucket_script, sliding_counter_script,
}
use apigateaway.RateLimit.Redis.Laws.{scripts-decisions}
use apigateaway.Balancer.{
  Balancer, create_balancer, pick_target, pick_from, admit, report_success, update_first,
}
use apigateaway.Proxy.Headers.{one, IncomingHeaders, header}
use apigateaway.WebSocket.Registry.{count_for, add}
use apigateaway.WebSocket.Connect.Overrun.{Call as Attempted, registered, IsBridged, limit_overrun}
use apigateaway.WebSocket.Connect.{
  WebSocketWorld, HandshakeEvent, unexpected_response, opened, connect_upstream, parse_protocols,
  protocol_passes, finish_proxy, Begun, on_connected,
}
use apigateaway.WebSocket.Connect.Laws.{
  body_of, connect_upstream-le, proxy_websocket-bridged, Grounds, begun,
}
use apigateaway.WebSocket.Bridge.{
  Message, Bridge, client, upstream, unregistered, closing_recorded, new_bridge,
}
use apigateaway.WebSocket.Bridge.Events.{
  BridgeEvent, client_accepted, message_from, closed_by, run, step, can_happen, respond, accept,
  relay_early,
}
use apigateaway.WebSocket.Bridge.Ending.{run-finished}
use apigateaway.WebSocket.Bridge.Quiet.{IsSendable, is_final}
use apigateaway.WebSocket.Bridge.Once.{IsSound}
use apigateaway.WebSocket.Bridge.Laws.{run-IsSound, run-finals, run-IsSendable}
use apigateaway.Tests.Pipeline.{route}

abbrev policy : Policy
policy = record { limit = 2; window_ms = 1000; burst = none }

policy-IsProper : IsProper policy
policy-IsProper = record { limit_pos = omega arith; window_pos = omega arith }

abbrev calls : List Call
calls = (0, 1) ∷ (10, 1) ∷ (20, 1) ∷ (5000, 1) ∷ []

scripts-decisions_example :
    (script_decisions fixed_window_script policy none calls
      ≡ decisions fixed_window policy none calls)
    × (script_decisions token_bucket_script policy none calls
        ≡ decisions token_bucket policy none calls)
    × (script_decisions leaky_bucket_script policy none calls
        ≡ decisions leaky_bucket policy none calls)
    × (script_decisions sliding_counter_script policy none calls
        ≡ decisions sliding_counter policy none calls)
scripts-decisions_example = scripts-decisions policy calls policy-IsProper

abbrev websocket : WebSocketConfig
websocket = record {
  enabled = true;
  origins = none;
  query_token = false;
  max_connections = 2;
  max_message_bytes = 1000;
  max_buffered_bytes = 1000;
  ping_interval_ms = 0;
  idle_timeout_ms = 0;
  message_rate_limit = none;
}

abbrev message : Message
message = record { bytes = 1 ∷ []; is_binary = true }

-- An early message, the client's acceptance, a message each way, a close without a code, which the
-- upstream answers.
abbrev events : List BridgeEvent
events =
    message_from upstream message 0 1
    ∷ client_accepted (λ m. 0) 2
    ∷ message_from client message 0 3
    ∷ closed_by client 1005
    ∷ closed_by upstream 1006
    ∷ []

run-IsSound_example : IsSound (run websocket events (new_bridge websocket [] none 0)).0
run-IsSound_example = run-IsSound websocket [] none 0 events

abbrev acceptance : List BridgeEvent
acceptance = client_accepted (λ m. 0) 2 ∷ []

abbrev accepted_bridge : Bridge
accepted_bridge = (run websocket acceptance (new_bridge websocket [] none 0)).0

accepted_bridge-accepted : accepted_bridge.accepted ≡ true
unfolding run step can_happen respond accept relay_early
accepted_bridge-accepted = refl

abbrev closes_of_both : List BridgeEvent
closes_of_both =
    closed_by upstream 1006 ∷ message_from client message 0 4 ∷ closed_by client 1000 ∷ []

run-finished_example : (run websocket closes_of_both accepted_bridge).0.finished ≡ true
run-finished_example =
    run-finished websocket closes_of_both accepted_bridge
      (run-IsSound websocket [] none 0 acceptance) accepted_bridge-accepted refl refl

run-finals_example :
    let (b, acts) = run websocket events (new_bridge websocket [] none 0) in
    ((b.finished ≡ false) × (keep is_final acts ≡ []))
    ⊎ ((b.finished ≡ true)
        × (c : Text) × (b.first_cause ≡ some c)
        × (keep is_final acts ≡ unregistered ∷ closing_recorded c ∷ []))
run-finals_example = run-finals websocket [] none 0 events

run-IsSendable_example : All IsSendable (run websocket events (new_bridge websocket [] none 0)).1
run-IsSendable_example = run-IsSendable websocket [] none 0 events

abbrev refusal : HandshakeEvent
refusal = unexpected_response (some 401) [] ((1 ∷ 2 ∷ []) ∷ (3 ∷ []) ∷ []) true

connect_upstream-le_example : length (body_of (connect_upstream [] refusal)) ≤ 65536 + 2
connect_upstream-le_example = connect_upstream-le 2 [] refusal (omega arith, (omega arith, tt))

abbrev headers : IncomingHeaders
headers = (lit "sec-websocket-protocol", some (one (lit "chat, json"))) ∷ []

abbrev world : WebSocketWorld
world = record { handshake = λ request. opened (some (lit "json")); picked_at = 0; known_at = 1 }

abbrev balancer : Balancer
balancer = create_balancer (lit "http://u" ∷ []) none

abbrev under_handshake : Begun
under_handshake = begun world [] route websocket balancer (lit "/x") headers (lit "ip") (lit "1")

proxy_websocket-bridged_example :
    Grounds world [] route websocket balancer
      (lit "/x")
      headers
      (lit "ip")
      (lit "1")
      (finish_proxy world under_handshake balancer).tried
    × (protocol_passes
          (parse_protocols (header (lit "sec-websocket-protocol") headers))
          (some (lit "json"))
        ≡ true)
unfolding create_balancer pick_target pick_from admit count_for connect_upstream on_connected
    parse_protocols report_success update_first
proxy_websocket-bridged_example =
    proxy_websocket-bridged world [] route websocket balancer (lit "/x") headers (lit "ip")
      (lit "1") balancer (some (lit "json")) refl

abbrev narrow : WebSocketConfig
narrow = record websocket { max_connections = 1 }

abbrev call_of : ℕ → Attempted
call_of number = record {
  world = world;
  before = balancer;
  later = balancer;
  connection = record { number = number; route_id = route.id };
}

-- Two requests come before the first handshake ends, and the route may have one connection.
limit_overrun_example :
    All
      (IsBridged [] route narrow (lit "/x") headers (lit "ip") (lit "1") (some (lit "json")))
      (call_of 0 ∷ call_of 1 ∷ [])
    × (count_for (registered [] (call_of 0 ∷ call_of 1 ∷ [])) route.id + 1 ≡ 3)
unfolding create_balancer pick_target pick_from admit count_for parse_protocols add
limit_overrun_example =
    limit_overrun [] route narrow (lit "/x") headers (lit "ip") (lit "1") (some (lit "json"))
      (call_of 0 ∷ call_of 1 ∷ []) refl refl
      ((lit "http://u", refl, refl), ((lit "http://u", refl, refl), tt))
      (refl, refl, (refl, refl, tt))
