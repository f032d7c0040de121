-- ===== src/WebSocket/Bridge/Ending.antt =====
-- How an accepted bridge comes to its end.
use apigateaway.Common.{
  ◌≡◌, refl, ◌∙◌, inl, inr, ℕ, Bool, true, false, not, List, [], ◌∷◌, any, Bool-cases,
}
use apigateaway.Config.{WebSocketConfig}
use apigateaway.WebSocket.Bridge.{Side, client, upstream, Bridge, is_closed, ready_of}
use apigateaway.WebSocket.Bridge.Events.{
  BridgeEvent, client_accepted, socket_closed, message_from, closed_by, errored_on, ponged,
  heartbeat, idle_check, kill_fired, send_failed, shutdown_called, terminate_called, can_happen,
  respond, step, run,
}
use apigateaway.WebSocket.Bridge.Once.{IsSound, Stays}
use apigateaway.WebSocket.Bridge.Closing.{closed_on-closed}
use apigateaway.WebSocket.Bridge.Laws.{step-Moves, run-Moves}

abbrev is_side : Side → Side → Bool
is_side client client = true
is_side client upstream = false
is_side upstream client = false
is_side upstream upstream = true

-- The event is the 'close' of the side.
abbrev pub closes : Side → BridgeEvent → Bool
closes side (client_accepted buffered now) = false
closes side socket_closed = false
closes side (message_from from m buffered now) = false
closes side (closed_by closing_side code) = is_side side closing_side
closes side (errored_on on) = false
closes side (ponged on) = false
closes side heartbeat = false
closes side (idle_check now) = false
closes side kill_fired = false
closes side (send_failed on) = false
closes side shutdown_called = false
closes side terminate_called = false

Stays-side :
    (side : Side) (b b' : Bridge)
    → Stays b b'
    → is_closed (ready_of side b) ≡ true
    → is_closed (ready_of side b') ≡ true
Stays-side client b b' (a, c, u) h = c h
Stays-side upstream b b' (a, c, u) h = u h

false-not : (t : Bool) → t ≡ false → not t ≡ true
false-not true h = cc
false-not false h = refl

close_event :
    (cfg : WebSocketConfig) (side : Side) (code : ℕ) (b : Bridge)
    → b.accepted ≡ true
    → is_closed (ready_of side b) ≡ false
    → can_happen cfg (closed_by side code) b ≡ true
unfolding can_happen
close_event cfg client code b a h = rw (a, h) refl
close_event cfg upstream code b a h = false-not _ h

-- After its 'close', a side of an accepted bridge is closed.
step-closed :
    (cfg : WebSocketConfig) (side : Side) (e : BridgeEvent) (b : Bridge)
    → IsSound b
    → b.accepted ≡ true
    → closes side e ≡ true
    → is_closed (ready_of side (step cfg e b).0) ≡ true
unfolding step respond
step-closed cfg client (closed_by client code) b s a h =
    elim (Bool-cases (is_closed b.client_ready)) [
      | inl c ↦
          Stays-side client b (step cfg (closed_by client code) b).0
            (step-Moves cfg (closed_by client code) b s).stays c
      | inr o ↦ rw (step, close_event cfg client code b a o) (closed_on-closed client code b s a o)
    ]
step-closed cfg upstream (closed_by upstream code) b s a h =
    elim (Bool-cases (is_closed b.upstream_ready)) [
      | inl c ↦
          Stays-side upstream b (step cfg (closed_by upstream code) b).0
            (step-Moves cfg (closed_by upstream code) b s).stays c
      | inr o ↦
          rw (step, close_event cfg upstream code b a o) (closed_on-closed upstream code b s a o)
    ]
step-closed cfg client (closed_by upstream code) b s a h = cc
step-closed cfg upstream (closed_by client code) b s a h = cc
step-closed cfg side (client_accepted buffered now) b s a h = cc
step-closed cfg side socket_closed b s a h = cc
step-closed cfg side (message_from from m buffered now) b s a h = cc
step-closed cfg side (errored_on on) b s a h = cc
step-closed cfg side (ponged on) b s a h = cc
step-closed cfg side heartbeat b s a h = cc
step-closed cfg side (idle_check now) b s a h = cc
step-closed cfg side kill_fired b s a h = cc
step-closed cfg side (send_failed on) b s a h = cc
step-closed cfg side shutdown_called b s a h = cc
step-closed cfg side terminate_called b s a h = cc

run-closed :
    (cfg : WebSocketConfig) (side : Side) (es : List BridgeEvent) (b : Bridge)
    → IsSound b
    → b.accepted ≡ true
    → any (closes side) es ≡ true
    → is_closed (ready_of side (run cfg es b).0) ≡ true
unfolding run
run-closed cfg side [] b s a h = cc
run-closed cfg side (e ∷ es) b s a h =
    let m = step-Moves cfg e b s in
    let (a', c, u) = m.stays in
    elim (Bool-cases (closes side e)) [
      | inl y ↦
          Stays-side side (step cfg e b).0 (run cfg es (step cfg e b).0).0
            (run-Moves cfg es (step cfg e b).0 m.sound).stays (step-closed cfg side e b s a y)
      | inr n ↦ run-closed cfg side es (step cfg e b).0 m.sound (a' a) (rw n at h)
    ]

both_closed :
    (b : Bridge)
    → IsSound b
    → b.accepted ≡ true
    → is_closed b.client_ready ≡ true
    → is_closed b.upstream_ready ≡ true
    → b.finished ≡ true
both_closed b s a c u = let (n, f) = rw a at s in f ∙ rw (c, u) refl

-- An accepted bridge, in any state that it can be in, is finished by any events among which each of
-- its two sockets has its 'close'.
pub run-finished :
    (cfg : WebSocketConfig) (es : List BridgeEvent) (b : Bridge)
    → IsSound b
    → b.accepted ≡ true
    → any (closes client) es ≡ true
    → any (closes upstream) es ≡ true
    → (run cfg es b).0.finished ≡ true
run-finished cfg es b s a c u =
    let m = run-Moves cfg es b s in
    let (a', x, y) = m.stays in
    both_closed (run cfg es b).0 m.sound (a' a) (run-closed cfg client es b s a c)
      (run-closed cfg upstream es b s a u)
