-- ===== src/Db/Batches.antt =====
-- packages/gateway/src/db/repositories/usage.ts: the insertion of a batch of usage records.
pub mod Laws
use apigateaway.Common.{
  ℕ, ◌+◌, ◌*◌, ◌-◌, Bool, true, false, Option, none, some, List, [], ◌∷◌, ◌++◌, map, get_elem?,
  Text,
}
use apigateaway.Gateway.Hooks.{UsageRecord}

-- What an element of `values` is.
pub data SqlValue : Type 0 where
  string : Text → SqlValue
  number : ℕ → SqlValue

-- The statement: of each row the numbers of its placeholders, in the order of the columns
-- `tenant_id`, `route_id`, `status_code` and `latency_ms`, and the values.
pub record InsertStatement : Type 0 where
  pub rows : List (List ℕ)
  pub values : List SqlValue

-- `($${base + 1}, $${base + 2}, $${base + 3}, $${base + 4})`
abbrev pub placeholders : ℕ → List ℕ
placeholders i = let base = i * 4 in (base + 1) ∷ (base + 2) ∷ (base + 3) ∷ (base + 4) ∷ []

-- What is pushed on `values` for a record.
abbrev pub values_of : UsageRecord → List SqlValue
values_of r =
    string r.tenant_id ∷ string r.route_id ∷ number r.status_code ∷ number r.latency_ms ∷ []

-- The rows and the values from the record of index `i` on.
unfoldable pub rows_from : ℕ → List UsageRecord → List (List ℕ)
rows_from i [] = []
rows_from i (r ∷ records) = placeholders i ∷ rows_from (i + 1) records

unfoldable pub all_values : List UsageRecord → List SqlValue
all_values [] = []
all_values (r ∷ records) = values_of r ++ all_values records

-- none: there is nothing to insert, and no query.
unfoldable pub insert_usage_batch : List UsageRecord → Option InsertStatement
insert_usage_batch [] = none
insert_usage_batch (r ∷ records) =
    some (record { rows = rows_from 0 (r ∷ records); values = all_values (r ∷ records) })

-- The rows that PostgreSQL adds to the table: `$n` is the value of number `n`, counted from 1.
abbrev pub bound : List SqlValue → ℕ → Option SqlValue
bound values n = get_elem? values (n - 1)

abbrev pub bound_row : List SqlValue → List ℕ → List (Option SqlValue)
bound_row values row = map (bound values) row

abbrev pub inserted_by : Option InsertStatement → List (List (Option SqlValue))
inserted_by none = []
inserted_by (some s) = map (bound_row s.values) s.rows

-- What the flushes have come to: the rows of the table, and the batches whose insertion failed, of
-- which `onError` is told.
pub record Settled : Type 0 where
  pub rows : List (List (Option SqlValue))
  pub failed : List (List UsageRecord)

-- The `try` of a flush, once its query ends, with or without an exception (a tenant that is not in
-- the table of tenants is one). A statement that throws adds no row. Flushes may overlap, so that the
-- queries end in any order.
unfoldable pub settle : List (List UsageRecord × Bool) → Settled
settle [] = record { rows = []; failed = [] }
settle ((batch, true) ∷ ends) =
    let later = settle ends in
    record { rows = inserted_by (insert_usage_batch batch) ++ later.rows; failed = later.failed }
settle ((batch, false) ∷ ends) =
    let later = settle ends in record { rows = later.rows; failed = batch ∷ later.failed }
