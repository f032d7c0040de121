-- ===== src/Usage/Laws.antt =====
-- No usage record is lost, doubled or overtaken in the buffer, and the buffer stays small.
use apigateaway.Common.{
  ℕ, ◌<◌, ◌≤?◌, ◌≡◌, refl, sym, ap, ◌∙◌, List, [], ◌∷◌, ◌++◌, append_assoc, append-nil, length,
  Bool-cases, inl, inr, arith,
}
use apigateaway.Usage.{UsageBuffer, empty_buffer, hand_over, flush, push, close}

pub data Operation (R : Type 0) : Type 0 where
  pushes : R → Operation R
  flushes : Operation R
  closes : Operation R

module _ {R : Type 0} where
  -- A history of the buffer: requests that end, ticks of the timer, a shutdown.
  unfoldable pub run : ℕ → UsageBuffer R → List (Operation R) → UsageBuffer R
  run n b [] = b
  run n b (pushes r ∷ ops) = run n (push n b r) ops
  run n b (flushes ∷ ops) = run n (flush b) ops
  run n b (closes ∷ ops) = run n (close b) ops

  unfoldable pub pushed : List (Operation R) → List R
  pushed [] = []
  pushed (pushes r ∷ ops) = r ∷ pushed ops
  pushed (flushes ∷ ops) = pushed ops
  pushed (closes ∷ ops) = pushed ops

  unfoldable pub joined : List (List R) → List R
  joined [] = []
  joined (b ∷ bs) = b ++ joined bs

  -- What has been handed over, then what is still in memory.
  abbrev pub recorded : UsageBuffer R → List R
  recorded b = joined b.handed_over ++ b.buffer

  joined-append : (bs : List (List R)) (rs : List R) → joined (bs ++ (rs ∷ [])) ≡ joined bs ++ rs
  unfolding joined
  joined-append [] rs = append-nil rs
  joined-append (b ∷ bs) rs =
      ap (λ (x : List R). b ++ x) (joined-append bs rs) ∙ sym (append_assoc b (joined bs) rs)

  recorded-hand_over :
      (bs : List (List R)) (rs : List R) → recorded (hand_over bs rs) ≡ joined bs ++ rs
  recorded-hand_over bs [] = refl
  recorded-hand_over bs (r ∷ rs) =
      append-nil (joined (bs ++ ((r ∷ rs) ∷ []))) ∙ joined-append bs (r ∷ rs)

  recorded-flush : (b : UsageBuffer R) → recorded (flush b) ≡ recorded b
  unfolding flush
  recorded-flush b = recorded-hand_over b.handed_over b.buffer

  recorded-push :
      (n : ℕ) (b : UsageBuffer R) (r : R) → recorded (push n b r) ≡ recorded b ++ (r ∷ [])
  unfolding push
  recorded-push n b r = elim (Bool-cases (n ≤? length (b.buffer ++ (r ∷ [])))) [
    | inl e ↦ rw e (
        recorded-flush (record { buffer = b.buffer ++ (r ∷ []); handed_over = b.handed_over })
        ∙ sym (append_assoc (joined b.handed_over) b.buffer (r ∷ [])))
    | inr e ↦ rw e (sym (append_assoc (joined b.handed_over) b.buffer (r ∷ [])))
  ]

  recorded-run-from :
      (n : ℕ) (b : UsageBuffer R) (ops : List (Operation R))
      → recorded (run n b ops) ≡ recorded b ++ pushed ops
  unfolding run pushed
  recorded-run-from n b [] = sym (append-nil (recorded b))
  recorded-run-from n b (pushes r ∷ ops) =
      recorded-run-from n (push n b r) ops
      ∙ ap (λ (x : List R). x ++ pushed ops) (recorded-push n b r)
      ∙ append_assoc (recorded b) (r ∷ []) (pushed ops)
  recorded-run-from n b (flushes ∷ ops) =
      recorded-run-from n (flush b) ops ∙ ap (λ (x : List R). x ++ pushed ops) (recorded-flush b)
  recorded-run-from n b (closes ∷ ops) =
      recorded-run-from n (close b) ops ∙ ap (λ (x : List R). x ++ pushed ops) (recorded-flush b)

  -- Whatever the order of pushes, flushes and shutdowns, the batches handed to the database and
  -- then the records in memory are the records pushed, each once and in their order.
  pub recorded-run :
      (n : ℕ) (ops : List (Operation R)) → recorded (run n empty_buffer ops) ≡ pushed ops
  unfolding joined
  recorded-run n ops = recorded-run-from n empty_buffer ops

  joined-hand_over :
      (bs : List (List R)) (rs : List R) → joined (hand_over bs rs).handed_over ≡ joined bs ++ rs
  joined-hand_over bs [] = sym (append-nil (joined bs))
  joined-hand_over bs (r ∷ rs) = joined-append bs (r ∷ rs)

  -- After a shutdown all records are handed over.
  pub joined-close : (b : UsageBuffer R) → joined (close b).handed_over ≡ recorded b
  unfolding flush
  joined-close b = joined-hand_over b.handed_over b.buffer

  length-hand_over : (bs : List (List R)) (rs : List R) → length (hand_over bs rs).buffer ≡ 0
  length-hand_over bs [] = refl
  length-hand_over bs (r ∷ rs) = refl

  length-flush : (b : UsageBuffer R) → length (flush b).buffer ≡ 0
  unfolding flush
  length-flush b = length-hand_over b.handed_over b.buffer

  length-push : (n : ℕ) (b : UsageBuffer R) (r : R) → 0 < n → length (push n b r).buffer < n
  unfolding push
  length-push n b r h =
      let b' : UsageBuffer R = record {
        buffer = b.buffer ++ (r ∷ []);
        handed_over = b.handed_over;
      } in
      ground (arith, length-flush b')

  -- With a positive batch size the records in memory always number fewer than it.
  length-buffer-run :
      (n : ℕ) (b : UsageBuffer R) (ops : List (Operation R))
      → 0 < n
      → length b.buffer < n
      → length (run n b ops).buffer < n
  unfolding run
  length-buffer-run n b [] h k = k
  length-buffer-run n b (pushes r ∷ ops) h k =
      length-buffer-run n (push n b r) ops h (length-push n b r h)
  length-buffer-run n b (flushes ∷ ops) h k =
      length-buffer-run n (flush b) ops h (omega (arith, length-flush b))
  length-buffer-run n b (closes ∷ ops) h k =
      length-buffer-run n (close b) ops h (omega (arith, length-flush b))
