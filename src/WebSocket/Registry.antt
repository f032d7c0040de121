-- ===== src/WebSocket/Registry.antt =====
-- packages/gateway/src/websocket/registry.ts: the open connections of a gateway, as a set of objects
-- in the order in which they came. An object is told from another by its number.
pub mod Laws
use apigateaway.Common.{
  ℕ, ◌+◌, Bool, true, false, not, List, [], ◌∷◌, ◌++◌, map, if◌then◌else◌, ◌==◌, ◌<?◌, ◌≤?◌, ◌||◌,
  Option, none, some, Text, text_eq, length, keep, any,
}

pub record TrackedConnection : Type 0 where
  pub number : ℕ
  pub route_id : Text

abbrev pub is_same : TrackedConnection → TrackedConnection → Bool
is_same c d = c.number == d.number

-- A set holds an object once.
unfoldable pub add : List TrackedConnection → TrackedConnection → List TrackedConnection
add connections c = if any (is_same c) connections then connections else connections ++ (c ∷ [])

unfoldable pub remove : List TrackedConnection → TrackedConnection → List TrackedConnection
remove connections c = keep (λ d. not (is_same c d)) connections

-- The loop of `countFor`.
unfoldable pub count_for : List TrackedConnection → Text → ℕ
count_for [] route_id = 0
count_for (c ∷ cs) route_id =
    let rest = count_for cs route_id in if text_eq c.route_id route_id then rest + 1 else rest

abbrev pub size : List TrackedConnection → ℕ
size connections = length connections

-- What `closeAll` calls on a connection.
pub data Closing : Type 0 where
  shut_down : TrackedConnection → Closing
  terminated : TrackedConnection → Closing

-- A look at the registry in the loop that waits: the time and the connections that are left.
abbrev pub Look : Type 0
Look = ℕ × List TrackedConnection

-- The loop ends at the first look that finds no connection, or the deadline passed; none is a loop
-- that is still waiting.
unfoldable pub wait_until : ℕ → List Look → Option (List TrackedConnection)
wait_until deadline [] = none
wait_until deadline ((now, []) ∷ looks) = some []
wait_until deadline ((now, c ∷ cs) ∷ looks) =
    let later = wait_until deadline looks in if now <? deadline then later else some (c ∷ cs)

abbrev pub then_terminate : List Closing → Option (List TrackedConnection) → List Closing
then_terminate before none = before
then_terminate before (some left) = before ++ map terminated left

-- `closeAll(graceMs)`, called at a time, with the looks that follow.
unfoldable pub close_all : List TrackedConnection → ℕ → ℕ → List Look → List Closing
close_all connections now grace_ms looks =
    then_terminate (map shut_down connections) (wait_until (now + grace_ms) looks)
