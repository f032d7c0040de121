-- ===== src/WebSocket/Registry/Laws.antt =====
-- The registry counts what has come and not gone.
use apigateaway.Common.{
  ◌+◌, ◌≡◌, refl, Bool, true, false, not, ◌&&◌, ◌||◌, List, [], ◌∷◌, ◌++◌, if◌then◌else◌, Text,
  text_eq, any, Bool-cases, inl, inr, arith,
}
use apigateaway.WebSocket.Registry.{TrackedConnection, is_same, add, remove, count_for}

-- No connection is in the registry twice.
abbrev pub IsDistinct : List TrackedConnection → Type 0
IsDistinct [] = Unit
IsDistinct (c ∷ cs) = (any (is_same c) cs ≡ false) × IsDistinct cs

or_left : (a b : Bool) → (a || b) ≡ false → a ≡ false
or_left true b h = h
or_left false b h = refl

or_right : (a b : Bool) → (a || b) ≡ false → b ≡ false
or_right true true h = h
or_right true false h = refl
or_right false b h = h

count_for-append :
    (cs ds : List TrackedConnection) (route_id : Text)
    → count_for (cs ++ ds) route_id ≡ count_for cs route_id + count_for ds route_id
unfolding count_for
count_for-append [] ds route_id = omega arith
count_for-append (c ∷ cs) ds route_id = ground (arith, count_for-append cs ds route_id)

-- A new connection raises the count of its route by one, and one that is known changes no count.
pub count_for-add :
    (cs : List TrackedConnection) (c : TrackedConnection) (route_id : Text)
    → count_for (add cs c) route_id ≡ (
        if not (any (is_same c) cs) && text_eq c.route_id route_id
        then count_for cs route_id + 1
        else count_for cs route_id)
unfolding add count_for
count_for-add cs c route_id = ground (arith, count_for-append cs (c ∷ []) route_id)

any-remove :
    (cs : List TrackedConnection) (c d : TrackedConnection)
    → any (is_same d) cs ≡ false
    → any (is_same d) (remove cs c) ≡ false
unfolding remove
any-remove [] c d h = refl
any-remove (x ∷ cs) c d h = ground (arith, any-remove cs c d)

remove-IsDistinct :
    (cs : List TrackedConnection) (c : TrackedConnection) → IsDistinct cs → IsDistinct (remove cs c)
unfolding remove
remove-IsDistinct [] c h = tt
remove-IsDistinct (x ∷ cs) c (h, hs) = elim (Bool-cases (is_same c x)) [
  | inl e ↦ rw e (remove-IsDistinct cs c hs)
  | inr e ↦ rw e (any-remove cs c x h, remove-IsDistinct cs c hs)
]

add-IsDistinct :
    (cs : List TrackedConnection) (c : TrackedConnection) → IsDistinct cs → IsDistinct (add cs c)
unfolding add
add-IsDistinct cs c h = elim (Bool-cases (any (is_same c) cs)) [
  | inl e ↦ rw e h
  | inr e ↦ rw e (appended cs h e)
]
  where
    any-append :
        (x : TrackedConnection) (ds : List TrackedConnection)
        → any (is_same x) ds ≡ false
        → is_same c x ≡ false
        → any (is_same x) (ds ++ (c ∷ [])) ≡ false
    any-append x [] k e = ground arith
    any-append x (d ∷ ds) k e = ground (arith, any-append x ds)

    appended :
        (ds : List TrackedConnection)
        → IsDistinct ds
        → any (is_same c) ds ≡ false
        → IsDistinct (ds ++ (c ∷ []))
    appended [] k e = (refl, tt)
    appended (x ∷ ds) (k, ks) e =
        (any-append x ds k (or_left _ _ e), appended ds ks (or_right _ _ e))

-- What came or went.
pub data Event : Type 0 where
  added : TrackedConnection → Event
  removed : TrackedConnection → Event

unfoldable pub after : List Event → List TrackedConnection → List TrackedConnection
after [] cs = cs
after (added c ∷ es) cs = after es (add cs c)
after (removed c ∷ es) cs = after es (remove cs c)

-- Whatever comes and goes, no connection is in the registry twice.
after-IsDistinct :
    (es : List Event) (cs : List TrackedConnection) → IsDistinct cs → IsDistinct (after es cs)
unfolding after
after-IsDistinct [] cs h = h
after-IsDistinct (added c ∷ es) cs h = after-IsDistinct es (add cs c) (add-IsDistinct cs c h)
after-IsDistinct (removed c ∷ es) cs h =
    after-IsDistinct es (remove cs c) (remove-IsDistinct cs c h)
