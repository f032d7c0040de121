-- ===== src/Cache/Store/Laws.antt =====
-- A cache gives back what was stored last, until it expires or is purged.
use apigateaway.Common.{
  ℕ, ◌+◌, ◌*◌, ◌≤◌, ◌≡◌, refl, Bool, false, ◌&&◌, ◌||◌, Option, none, some, [], ◌∷◌, if◌then◌else◌,
  ◌<?◌, ◌≤?◌, Text, text_eq, text_eq_iff, starts_with, lookup, delete, lookup-insert, lookup-delete,
  arith, length, keep,
}
use apigateaway.Cache.Store.{CachedResponse, Entry, Entries, get, set, purge_from, delete_by_prefix}

-- What a caller sees under a key.
abbrev pub seen : Entries → Text → ℕ → Option CachedResponse
seen entries key now = (get entries key now).0

abbrev fresh : Option Entry → ℕ → Option CachedResponse
fresh none now = none
fresh (some e) now = if e.expires_at ≤? now then none else some e.response

seen-lookup : (m : Entries) (k : Text) (now : ℕ) → seen m k now ≡ fresh (lookup k m) now
unfolding get
seen-lookup m k now = ground arith

-- After a response is stored it is seen under its key for `ttlSec` seconds, and no longer; what is
-- seen under the other keys is as before.
pub seen-set :
    (m : Entries) (k j : Text) (r : CachedResponse) (ttl_sec stored now : ℕ)
    → seen (set m k r ttl_sec stored) j now ≡ (
        if text_eq k j
        then (if stored + ttl_sec * 1000 ≤? now then none else some r)
        else seen m j now)
unfolding set
seen-set m k j r ttl_sec stored now = ground (
  arith,
  seen-lookup (set m k r ttl_sec stored) j now,
  seen-lookup m j now,
  lookup-insert k j (record { response = r; expires_at = stored + ttl_sec * 1000 }) m,
)

-- A read deletes what has expired, and no later read sees a difference.
seen-get :
    (m : Entries) (k j : Text) (now later : ℕ)
    → now ≤ later
    → seen (get m k now).1 j later ≡ seen m j later
unfolding get
seen-get m k j now later h = ground (
  arith,
  seen-lookup m j later,
  seen-lookup (delete k m) j later,
  lookup-delete k j m,
  text_eq_iff k j,
)

abbrev has_key : Text → Entries → Bool
has_key k [] = false
has_key k ((j, e) ∷ m) = text_eq j k || has_key k m

lookup-purge_from :
    (prefix k : Text) (now : ℕ) (rest left : Entries) (n : ℕ)
    → lookup k (purge_from prefix now rest left n).1
      ≡ (if has_key k rest && starts_with k prefix then none else lookup k left)
unfolding purge_from
lookup-purge_from prefix k now [] left n = refl
lookup-purge_from prefix k now ((j, e) ∷ rest) left n =
    let left' = if starts_with j prefix then delete j left else left in
    let n' = if starts_with j prefix then (if now <? e.expires_at then n + 1 else n) else n in
    ground
      (arith, lookup-purge_from prefix k now rest left' n', lookup-delete j k left, text_eq_iff j k)

has_key-lookup : (k : Text) (m : Entries) → has_key k m ≡ false → lookup k m ≡ none
has_key-lookup k [] h = refl
has_key-lookup k ((j, e) ∷ m) h = ground (arith, has_key-lookup k m)

abbrev pub is_live_match : Text → ℕ → Text × Entry → Bool
is_live_match prefix now (key, entry) = starts_with key prefix && (now <? entry.expires_at)

purge_from-count :
    (prefix : Text) (now : ℕ) (rest left : Entries) (n : ℕ)
    → (purge_from prefix now rest left n).0 ≡ n + length (keep (is_live_match prefix now) rest)
unfolding purge_from
purge_from-count prefix now [] left n = omega arith
purge_from-count prefix now ((j, e) ∷ rest) left n =
    let left' = if starts_with j prefix then delete j left else left in
    let n' = if starts_with j prefix then (if now <? e.expires_at then n + 1 else n) else n in
    ground (arith, purge_from-count prefix now rest left' n')

-- A purge answers with the number of entries under the prefix that had not expired, removes what is
-- under the prefix, and leaves what is seen under the other keys.
pub delete_by_prefix_lem :
    (m : Entries) (prefix k : Text) (now later : ℕ)
    → ((delete_by_prefix m prefix now).0 ≡ length (keep (is_live_match prefix now) m))
      × (seen (delete_by_prefix m prefix now).1 k later
          ≡ (if starts_with k prefix then none else seen m k later))
unfolding delete_by_prefix
delete_by_prefix_lem m prefix k now later = (
  omega (arith, purge_from-count prefix now m m 0),
  ground (
    arith,
    seen-lookup (delete_by_prefix m prefix now).1 k later,
    seen-lookup m k later,
    lookup-purge_from prefix k now m m 0,
    has_key-lookup k m,
  ),
)
