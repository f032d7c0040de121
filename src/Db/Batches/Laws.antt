-- ===== src/Db/Batches/Laws.antt =====
-- What becomes of the usage records that a buffer hands over.
use mathlib.Core.List.{Perm, Permᴰ}
use mathlib.Core.List.Permᴰ
use mathlib.Core.Logic.{∥∥₁_map}
use apigateaway.Common.{
  ◌≡◌, refl, ap, ap₂, sym, subst, ◌∙◌, Bool, true, false, ℕ, suc, ◌+◌, ◌*◌, ◌-◌, Option, some, List,
  [], ◌∷◌, ◌++◌, map, length, get_elem?, get_elem?-append_right, length-append, append_assoc, arith,
}
use apigateaway.Gateway.Hooks.{UsageRecord}
use apigateaway.Usage.{empty_buffer, close}
use apigateaway.Usage.Laws.{Operation, run, pushed, joined, recorded-run, joined-close}
use apigateaway.Db.Batches.{
  SqlValue, placeholders, values_of, settle, rows_from, all_values, insert_usage_batch, bound,
  bound_row, inserted_by,
}

-- The row of a record.
abbrev pub row_of : UsageRecord → List (Option SqlValue)
row_of r = map some (values_of r)

cons_same : {A : Type 0} {x x' : A} {xs xs' : List A} → x ≡ x' → xs ≡ xs' → (x ∷ xs) ≡ (x' ∷ xs')
cons_same p q = cc

bound-append :
    (before after : List SqlValue) (i k : ℕ)
    → length before ≡ i * 4
    → bound (before ++ after) (i * 4 + suc k) ≡ get_elem? after k
bound-append before after i k h =
    let e : i * 4 + suc k - 1 ≡ length before + k = omega (arith, h) in
    rw e (get_elem?-append_right before after k)

bound_row-placeholders :
    (before after : List SqlValue) (i : ℕ) (r : UsageRecord)
    → length before ≡ i * 4
    → bound_row (before ++ (values_of r ++ after)) (placeholders i) ≡ row_of r
bound_row-placeholders before after i r h =
    let value = λ (k : ℕ). bound-append before (values_of r ++ after) i k h in
    cons_same (value 0) (cons_same (value 1) (cons_same (value 2) (cons_same (value 3) refl)))

rows_from-values :
    (before : List SqlValue) (i : ℕ) (records : List UsageRecord)
    → length before ≡ i * 4
    → map (bound_row (before ++ all_values records)) (rows_from i records) ≡ map row_of records
unfolding rows_from all_values
rows_from-values before i [] h = refl
rows_from-values before i (r ∷ records) h =
    let longer : length (before ++ values_of r) ≡ (i + 1) * 4 =
      omega (arith, h, length-append before (values_of r)) in
    let rest = rows_from-values (before ++ values_of r) (i + 1) records longer in
    cons_same (bound_row-placeholders before (all_values records) i r h)
      ((rw (append_assoc before (values_of r) (all_values records)) at rest))

inserted-batch :
    (records : List UsageRecord) → inserted_by (insert_usage_batch records) ≡ map row_of records
unfolding insert_usage_batch
inserted-batch [] = refl
inserted-batch (r ∷ records) = rows_from-values [] 0 (r ∷ records) refl

abbrev rows_of : List UsageRecord → List (List (Option SqlValue))
rows_of records = map row_of records

rows_of-append : (xs ys : List UsageRecord) → rows_of (xs ++ ys) ≡ rows_of xs ++ rows_of ys
rows_of-append [] ys = refl
rows_of-append (x ∷ xs) ys = ap (◌∷◌ (row_of x)) (rows_of-append xs ys)

abbrev batches_of : List (List UsageRecord × Bool) → List (List UsageRecord)
batches_of ends = map (λ (e : List UsageRecord × Bool). e.0) ends

module _ {A : Type 0} where
  Permᴰ-path : {xs ys : List A} → xs ≡ ys → Permᴰ xs ys
  Permᴰ-path {xs} e = subst (Permᴰ xs) e (Permᴰ.refl xs)

  -- The list in front of a list changes places with the list in the middle.
  Permᴰ-middle : (xs ys zs : List A) → Permᴰ (xs ++ (ys ++ zs)) (ys ++ (xs ++ zs))
  Permᴰ-middle xs ys zs = Permᴰ.trans (Permᴰ-path (sym (append_assoc xs ys zs))) (
      Permᴰ.trans (Permᴰ.append_right zs (Permᴰ.append_comm xs ys))
        (Permᴰ-path (append_assoc ys xs zs)))

  Permᴰ-joined : {bs cs : List (List A)} → Permᴰ bs cs → Permᴰ (joined bs) (joined cs)
  unfolding joined
  Permᴰ-joined Permᴰ.nil = Permᴰ.nil
  Permᴰ-joined (Permᴰ.cons {a = b} {l₂ = cs} e p) =
      Permᴰ.trans (Permᴰ.append_left b (Permᴰ-joined p)) (Permᴰ-path (ap (λ x. x ++ joined cs) e))
  Permᴰ-joined (Permᴰ.swap {a = b} {b = c} {l = l} e f) =
      Permᴰ.trans (Permᴰ-middle b c (joined l)) (Permᴰ-path (ap₂ (λ x y. x ++ (y ++ joined l)) f e))
  Permᴰ-joined (Permᴰ.trans p q) = Permᴰ.trans (Permᴰ-joined p) (Permᴰ-joined q)

-- A record of a batch is in a row or in a batch that failed.
settle-rows :
    (ends : List (List UsageRecord × Bool))
    → Permᴰ
        ((settle ends).rows ++ rows_of (joined (settle ends).failed))
        (rows_of (joined (batches_of ends)))
unfolding settle joined
settle-rows [] = Permᴰ.nil
settle-rows ((batch, true) ∷ ends) =
    let later = settle ends in
    Permᴰ.trans
      (Permᴰ-path (
        ap (λ rows. (rows ++ later.rows) ++ rows_of (joined later.failed)) (inserted-batch batch)
        ∙ append_assoc (rows_of batch) later.rows (rows_of (joined later.failed))))
      (Permᴰ.trans (Permᴰ.append_left (rows_of batch) (settle-rows ends))
        (Permᴰ-path (sym (rows_of-append batch (joined (batches_of ends))))))
settle-rows ((batch, false) ∷ ends) =
    let later = settle ends in
    Permᴰ.trans
      (Permᴰ-path (ap (λ rows. later.rows ++ rows) (rows_of-append batch (joined later.failed))))
      (Permᴰ.trans (Permᴰ-middle later.rows (rows_of batch) (rows_of (joined later.failed))) (
        Permᴰ.trans (Permᴰ.append_left (rows_of batch) (settle-rows ends))
          (Permᴰ-path (sym (rows_of-append batch (joined (batches_of ends)))))))

-- Whatever requests end and however often the timer ticks: once the buffer is closed and the
-- insertions of its batches have ended, in any order and each with or without an error, every record
-- pushed has one row of its own, with each value in its column, or is in a batch that failed, but not
-- both; and there are no other rows.
pub settle-close :
    (max_batch_size : ℕ) (ops : List (Operation UsageRecord))
    (ends : List (List UsageRecord × Bool))
    → Perm
        (map (λ (e : List UsageRecord × Bool). e.0) ends)
        (close (run max_batch_size empty_buffer ops)).handed_over
    → Perm
        ((settle ends).rows ++ map row_of (joined (settle ends).failed))
        (map row_of (pushed ops))
settle-close max_batch_size ops ends h =
    let b = run max_batch_size empty_buffer ops in
    ∥∥₁_map h (λ p. Permᴰ.trans (settle-rows ends) (
      Permᴰ.map row_of (
        Permᴰ.trans (Permᴰ-joined p)
          (Permᴰ-path (joined-close b ∙ recorded-run max_batch_size ops)))))
