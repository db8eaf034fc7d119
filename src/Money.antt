-- ===== src/Money.antt =====
-- src/ragbench/core/money.py, `MemoryBudgetRepository` and `BudgetGuard`. Each repository method
-- holds one lock over its whole body and awaits nothing inside, so a method is one step; a method
-- that raises keeps what it wrote before. The id that `uuid4` draws is an argument.
pub mod Records
pub mod Totals
pub mod Shares
pub mod Cap
pub mod Outcomes
pub mod Sql
use ragbench_kr_implementati.Prelude.{
  ℕ, ◌≡◌, Option, none, some, Bool, true, false, ◌||◌, String, List, [], ◌∷◌, ◌++◌, if◌then◌else◌,
}
use ragbench_kr_implementati.Prelude.Int.{ℤ, pos, ◌+ℤ◌, leb_ℤ, ltb_ℤ, eqb_ℤ}
use ragbench_kr_implementati.Prelude.Result.{
  Error, Result, ok, err, budget_exceeded, runtime_error, value_error, key_error,
}
use ragbench_kr_implementati.Prelude.Assoc.{nat_key, lookup, put}
use ragbench_kr_implementati.Money.Records.{
  Decimal, Uuid, Usage, Status, opened, settled, reconciliation_required, released, is_open,
  Reservation, UsageRecord, MemoryReservation,
}

abbrev pub Reservations : Type 0
Reservations = List (Uuid × MemoryReservation)

pub record Repository : Type 0 where
  pub settled_cost : Decimal
  pub reservations : Reservations
  pub usages : List UsageRecord

-- A method: the outcome, and the repository after it.
abbrev pub Method : Type 0 → Type 0
Method A = Repository → Result A × Repository

-- `MemoryBudgetRepository(settled_cost=...)`.
abbrev pub new_repository : Decimal → Repository
new_repository cost = record { settled_cost = cost; reservations = []; usages = [] }

-- The sum over `reservations.values()` of what `amount` reads off a row.
unfoldable pub total : (MemoryReservation → ℤ) → Reservations → ℤ
total amount [] = pos 0
total amount ((id, row) ∷ rows) = amount row +ℤ total amount rows

abbrev pub open_amount : MemoryReservation → ℤ
open_amount row = if is_open row.status then row.reserved_cost_usd else pos 0

abbrev pub open_cost : Reservations → Decimal
open_cost = total open_amount

abbrev pub new_row : Uuid → Uuid → Decimal → MemoryReservation
new_row id correlation_id projected_cost = record {
  id = id;
  correlation_id = correlation_id;
  reserved_cost_usd = projected_cost;
  status = opened;
  settled_cost_usd = none;
}

abbrev pub granted : Uuid → Uuid → Decimal → Reservation
granted id correlation_id projected_cost = record {
  id = id;
  correlation_id = correlation_id;
  reserved_cost_usd = projected_cost;
  status = opened;
}

unfoldable pub reserve_atomic : Uuid → Uuid → Decimal → Decimal → Method Reservation
reserve_atomic id correlation_id projected_cost hard_limit s =
    if leb_ℤ hard_limit (s.settled_cost +ℤ open_cost s.reservations +ℤ projected_cost)
    then (err (budget_exceeded "projected provider cost reaches the hard budget limit"), s)
    else (
      ok (granted id correlation_id projected_cost),
      record s {
        reservations =
            put id
              (record {
                id = id;
                correlation_id = correlation_id;
                reserved_cost_usd = projected_cost;
                status = opened;
                settled_cost_usd = none;
              })
              s.reservations;
      },
    )

abbrev pub settled_status : MemoryReservation → Usage → Bool → Status
settled_status row usage reconciliation =
    if reconciliation || ltb_ℤ row.reserved_cost_usd usage.estimated_cost_usd
    then reconciliation_required
    else settled

abbrev pub settled_row : MemoryReservation → Usage → Bool → MemoryReservation
settled_row row usage reconciliation = record row {
  status = settled_status row usage reconciliation;
  settled_cost_usd = some usage.estimated_cost_usd;
}

settle_row :
    Uuid → String → String → Usage → Bool → Bool → Option MemoryReservation → Method (Unit {0})
settle_row id operation model_id usage cache_hit reconciliation none s = (err key_error, s)
settle_row id operation model_id usage cache_hit reconciliation (some row) s =
    if is_open row.status
    then (
      ok tt,
      record {
        settled_cost = s.settled_cost +ℤ usage.estimated_cost_usd;
        reservations = put id (settled_row row usage reconciliation) s.reservations;
        usages =
            s.usages
            ++ record {
              correlation_id = row.correlation_id;
              operation = operation;
              model_id = model_id;
              usage = usage;
              cache_hit = cache_hit;
            }
              ∷ [];
      },
    )
    else (err (runtime_error "only open reservations can be settled"), s)

unfoldable pub settle : Uuid → String → String → Usage → Bool → Bool → Method (Unit {0})
unfolding settle_row
settle id operation model_id usage cache_hit reconciliation s =
    settle_row id operation model_id usage cache_hit reconciliation (lookup id s.reservations) s

abbrev pub released_row : MemoryReservation → MemoryReservation
released_row row = record row { status = released; settled_cost_usd = some (pos 0) }

release_row : Uuid → Option MemoryReservation → Method (Unit {0})
release_row id none s = (err key_error, s)
release_row id (some row) s =
    if is_open row.status
    then (ok tt, record s { reservations = put id (released_row row) s.reservations })
    else (ok tt, s)

unfoldable pub release : Uuid → Method (Unit {0})
unfolding release_row
release id s = release_row id (lookup id s.reservations) s

-- `_require_zero_cost_cache_hit`, and the row that a cache hit writes.
unfoldable pub record_cache_hit : Uuid → String → String → Usage → Method (Unit {0})
record_cache_hit correlation_id operation model_id usage s =
    if eqb_ℤ usage.estimated_cost_usd (pos 0)
    then (
      ok tt,
      record s {
        usages =
            s.usages
            ++ record {
              correlation_id = correlation_id;
              operation = operation;
              model_id = model_id;
              usage = usage;
              cache_hit = true;
            }
              ∷ [];
      },
    )
    else (err (value_error "cache-hit accounting is restricted to zero-cost usage"), s)

-- `BudgetGuard.reserve`; its other methods pass their arguments on.
unfoldable pub guard_reserve : Decimal → Uuid → Uuid → Decimal → Method Reservation
unfolding reserve_atomic
guard_reserve hard_limit id correlation_id projected_cost s =
    if ltb_ℤ projected_cost (pos 0)
    then (err (value_error "projected_cost cannot be negative"), s)
    else reserve_atomic id correlation_id projected_cost hard_limit s

-- Any interleaving of tasks that hold one guard is a sequence of these steps, whether the call
-- returns or raises. Ids that `uuid4` draws have not been drawn before.
pub data Step (hard_limit : Decimal) (s : Repository) : Repository → Type 0 where
  reserving :
      (id correlation_id : Uuid) (projected_cost : Decimal)
      → lookup id s.reservations ≡ none
      → Step hard_limit s (guard_reserve hard_limit id correlation_id projected_cost s).1
  settling :
      (id : Uuid) (operation model_id : String) (usage : Usage) (cache_hit reconciliation : Bool)
      → Step hard_limit s (settle id operation model_id usage cache_hit reconciliation s).1
  releasing : (id : Uuid) → Step hard_limit s (release id s).1
  cache_hitting :
      (correlation_id : Uuid) (operation model_id : String) (usage : Usage)
      → Step hard_limit s (record_cache_hit correlation_id operation model_id usage s).1

pub data Reach (hard_limit : Decimal) (s : Repository) : Repository → Type 0 where
  here : Reach hard_limit s s
  next : {t u : Repository} → Reach hard_limit s t → Step hard_limit t u → Reach hard_limit s u
