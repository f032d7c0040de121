-- ===== src/Usage.antt =====
-- packages/gateway/src/usage/buffer.ts: usage records, gathered in memory. `insertUsageBatch` is
-- awaited after the buffer is emptied, so that a flush is a function of the buffer that hands over
-- a batch; a failed insert goes to `onError` and changes nothing of the buffer.
pub mod Laws
use apigateaway.Common.{ℕ, ◌≤?◌, List, [], ◌∷◌, ◌++◌, if◌then◌else◌, length}

-- The records in memory, and the batches handed to `insertUsageBatch` so far, the oldest first.
pub record UsageBuffer (R : Type 0) : Type 0 where
  pub buffer : List R
  pub handed_over : List (List R)

module _ {R : Type 0} where
  abbrev pub empty_buffer : UsageBuffer R
  empty_buffer = record { buffer = []; handed_over = [] }

  -- `if (buffer.length === 0) return;`
  abbrev pub hand_over : List (List R) → List R → UsageBuffer R
  hand_over batches [] = record { buffer = []; handed_over = batches }
  hand_over batches (r ∷ rs) = record { buffer = []; handed_over = batches ++ ((r ∷ rs) ∷ []) }

  unfoldable pub flush : UsageBuffer R → UsageBuffer R
  flush b = hand_over b.handed_over b.buffer

  unfoldable pub push : ℕ → UsageBuffer R → R → UsageBuffer R
  push max_batch_size b r =
      let b' : UsageBuffer R = record {
        buffer = b.buffer ++ (r ∷ []);
        handed_over = b.handed_over;
      } in
      let flushed = flush b' in if max_batch_size ≤? length b'.buffer then flushed else b'

  abbrev pub close : UsageBuffer R → UsageBuffer R
  close b = flush b
