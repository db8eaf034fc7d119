-- ===== src/Tests/Budget.antt =====
-- src/ragbench/core/money.py. Two tasks share a cap of 100 quanta: one reservation is settled
-- within its amount, one above it, and a third is refused.
use ragbench_kr_implementati.Prelude.{◌≡◌, ◌⊎◌, refl, none, some, true, false, [], ◌∷◌, arith}
use ragbench_kr_implementati.Prelude.Int.{pos, ◌+ℤ◌, ◌<ℤ◌, ◌≤ℤ◌}
use ragbench_kr_implementati.Prelude.Result.{ok, err, value_error, data_error}
use ragbench_kr_implementati.Prelude.Assoc.{nat_key, lookup, put}
use ragbench_kr_implementati.Money
use ragbench_kr_implementati.Money.Records.{Decimal, Usage, opened}
use ragbench_kr_implementati.Money.{
  Repository, new_repository, guard_reserve, settle, release, Reach, here, next, reserving,
  settling, total, open_cost, new_row, granted,
}
use ragbench_kr_implementati.Money.Shares.{excess, spent}
use ragbench_kr_implementati.Money.Totals.{AllRows}
use ragbench_kr_implementati.Money.Cap.{Reach-lt_cap, Reach-lt_hard_limit}
use ragbench_kr_implementati.Money.Outcomes.{
  guard_reserve_outcome, settle_once, error_keeps, IsAtomic, over_budget, not_open,
}
use ragbench_kr_implementati.Money.Sql.{
  Database, BudgetReservation, string_column, only_blanks, accepted, fits_numeric,
}
use ragbench_kr_implementati.Money.Sql
use ragbench_kr_implementati.Money.Sql.Refinement.{
  answers, Agrees, to_memory, reserve_atomic-refines, methods-refine,
}

abbrev costing : Decimal → Usage
costing cost = record {
  input_tokens = pos 10;
  output_tokens = pos 5;
  billable_pages = pos 0;
  estimated_cost_usd = cost;
}

abbrev empty : Repository
empty = new_repository (pos 0)

abbrev reserved : Repository
reserved = (guard_reserve (pos 100) 1 7 (pos 40) empty).1

abbrev within : Repository
within = (settle 1 "generate" "solar" (costing (pos 30)) false false reserved).1

abbrev second : Repository
second = (guard_reserve (pos 100) 2 8 (pos 60) within).1

abbrev beyond : Repository
beyond = (settle 2 "generate" "solar" (costing (pos 90)) false false second).1

program : Unit {0}
unfolding guard_reserve settle release total lookup put ◌+ℤ◌
program = tt

beyond_cost : beyond.settled_cost ≡ pos 120
unfolding program
beyond_cost = refl

third_refused : (guard_reserve (pos 100) 3 9 (pos 1) beyond).0 ≡ err over_budget
unfolding program
third_refused = refl

within-Reach : Reach (pos 100) empty within
unfolding program
within-Reach =
    next (next here (reserving 1 7 (pos 40) refl))
      (settling 1 "generate" "solar" (costing (pos 30)) false false)

beyond-Reach : Reach (pos 100) empty beyond
unfolding program
beyond-Reach =
    next (next within-Reach (reserving 2 8 (pos 60) refl))
      (settling 2 "generate" "solar" (costing (pos 90)) false false)

zero_below_cap : pos 0 <ℤ pos 100
zero_below_cap = omega arith

Reach-lt_cap_example :
    beyond.settled_cost +ℤ open_cost beyond.reservations
    <ℤ pos 100 +ℤ total excess beyond.reservations
Reach-lt_cap_example = Reach-lt_cap (pos 100) (pos 0) beyond zero_below_cap beyond-Reach

within-IsReconciled : AllRows Money.Cap.IsReconciled within.reservations
unfolding program
within-IsReconciled = (λ same. ground arith, tt)

Reach-lt_hard_limit_example :
    (within.settled_cost +ℤ open_cost within.reservations <ℤ pos 100)
    × (within.settled_cost ≡ pos 0 +ℤ total spent within.reservations)
Reach-lt_hard_limit_example =
    Reach-lt_hard_limit (pos 100) (pos 0) within zero_below_cap within-Reach within-IsReconciled

absent_id : lookup 1 empty.reservations ≡ none
unfolding program
absent_id = refl

abbrev Outcome : Decimal → Repository → Type 0
Outcome cost s =
    let after = guard_reserve (pos 100) 1 7 cost s in
    let held = s.settled_cost +ℤ open_cost s.reservations +ℤ cost in
    ((cost <ℤ pos 0) × (after ≡ (err (value_error "projected_cost cannot be negative"), s)))
    ⊎ ((pos 0 ≤ℤ cost) × (pos 100 ≤ℤ held) × (after ≡ (err over_budget, s)))
    ⊎ ((pos 0 ≤ℤ cost)
        × (held <ℤ pos 100)
        × (after.0 ≡ ok (granted 1 7 cost))
        × (lookup 1 after.1.reservations ≡ some (new_row 1 7 cost))
        × (open_cost after.1.reservations ≡ open_cost s.reservations +ℤ cost)
        × (after.1.settled_cost ≡ s.settled_cost)
        × (after.1.usages ≡ s.usages))

guard_reserve_outcome_example : Outcome (pos 40) empty
guard_reserve_outcome_example = guard_reserve_outcome (pos 100) 1 7 (pos 40) empty absent_id

settled_ok : (settle 1 "generate" "solar" (costing (pos 30)) false false reserved).0 ≡ ok tt
unfolding program
settled_ok = refl

settle_once_example :
    (settle 1 "generate" "solar" (costing (pos 1)) false true within ≡ (err not_open, within))
    × (release 1 within ≡ (ok tt, within))
settle_once_example =
    settle_once 1 "generate" "solar" (costing (pos 30)) (costing (pos 1)) false false false true
      reserved settled_ok

abbrev row : BudgetReservation
row = record {
  correlation_id = 7;
  reserved_cost_usd = pos 40;
  settled_cost_usd = none;
  status = opened;
  settled_at = none;
}

abbrev tables : Database
tables = record { api_usage = []; budget_reservation = (1, row) ∷ [] }

reserve_atomic-refines_example :
    (answers (Sql.reserve_atomic 2 8 (pos 5) (pos 100) tables)
      ≡ Money.reserve_atomic 2 8 (pos 5) (pos 100) (to_memory tables))
    ⊎ ((fits_numeric (pos 5) ≡ false)
        × (Sql.reserve_atomic 2 8 (pos 5) (pos 100) tables ≡ (err data_error, tables)))
reserve_atomic-refines_example = reserve_atomic-refines 2 8 (pos 5) (pos 100) tables refl

row_found : lookup 1 tables.budget_reservation ≡ some row
unfolding lookup
row_found = refl

methods-refine_example :
    Agrees
      (accepted "generate" "solar" (costing (pos 30)))
      tables
      (Sql.settle 1 "generate" "solar" (costing (pos 30)) false false 99 tables)
      (λ texts. Money.settle 1 texts.0 texts.1 (costing (pos 30)) false false (to_memory tables))
    × (answers (Sql.release 1 99 tables) ≡ Money.release 1 (to_memory tables))
    × Agrees
        (accepted "generate" "solar" (costing (pos 30)))
        tables
        (Sql.record_cache_hit 7 "generate" "solar" (costing (pos 30)) tables)
        (λ texts. Money.record_cache_hit 7 texts.0 texts.1 (costing (pos 30)) (to_memory tables))
methods-refine_example =
    methods-refine 1 7 "generate" "solar" (costing (pos 30)) false false 99 row tables row_found

-- A text of five characters in a column of three, and in one of five.
cut_texts : (string_column 3 "ab   " ≡ some "ab ") × (string_column 3 "abcd " ≡ none)
unfolding string_column only_blanks
cut_texts = (refl, refl)

large_cost :
    Sql.reserve_atomic 2 8 (pos 1000000000000) (pos 2000000000000) tables ≡ (err data_error, tables)
unfolding Sql.reserve_atomic ◌+ℤ◌
large_cost = refl

shut_again : (settle 1 "generate" "solar" (costing (pos 1)) false true within).0 ≡ err not_open
unfolding program
shut_again = refl

error_keeps_example :
    IsAtomic within (guard_reserve (pos 100) 1 7 (pos 30) within)
    × IsAtomic within (settle 1 "generate" "solar" (costing (pos 1)) false true within)
    × IsAtomic within (release 1 within)
    × IsAtomic within (Money.record_cache_hit 7 "generate" "solar" (costing (pos 1)) within)
error_keeps_example =
    error_keeps (pos 100) 1 7 (pos 30) "generate" "solar" (costing (pos 1)) false true within
