-- ===== src/Cache/Store.antt =====
-- packages/core/src/cache/store.ts and memoryStore.ts. The time that `Date.now()` reads is an
-- argument. A call has no `await`, so that it runs to its end before the next one.
pub mod Laws
use apigateaway.Common.{
  ℕ, ◌+◌, ◌*◌, Bool, Option, none, some, List, [], ◌∷◌, if◌then◌else◌, ◌<?◌, ◌≤?◌, Text,
  starts_with, Dict, lookup, insert, delete,
}
use apigateaway.Proxy.Headers.{Headers}

pub record CachedResponse : Type 0 where
  pub status_code : ℕ
  pub headers : Headers
  pub body : List ℕ

pub record Entry : Type 0 where
  pub response : CachedResponse
  pub expires_at : ℕ

abbrev pub Entries : Type 0
Entries = Dict Entry

-- An expired entry is deleted when it is found.
unfoldable pub get : Entries → Text → ℕ → Option CachedResponse × Entries
get entries key now = elim (lookup key entries) [
  | none ↦ (none, entries)
  | some entry ↦
      if entry.expires_at ≤? now then (none, delete key entries) else (some entry.response, entries)
]

unfoldable pub set : Entries → Text → CachedResponse → ℕ → ℕ → Entries
set entries key response ttl_sec now =
    insert key (record { response = response; expires_at = now + ttl_sec * 1000 }) entries

-- The loop of `deleteByPrefix` over the entries, with what is left and the count so far.
unfoldable pub purge_from : Text → ℕ → Entries → Entries → ℕ → ℕ × Entries
purge_from prefix now [] left removed = (removed, left)
purge_from prefix now ((key, entry) ∷ rest) left removed =
    let matching = starts_with key prefix in
    purge_from prefix now rest (if matching then delete key left else left)
      (if matching then (if now <? entry.expires_at then removed + 1 else removed) else removed)

unfoldable pub delete_by_prefix : Entries → Text → ℕ → ℕ × Entries
delete_by_prefix entries prefix now = purge_from prefix now entries entries 0

abbrev pub close : Entries → Entries
close entries = []
