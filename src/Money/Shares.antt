-- ===== src/Money/Shares.antt =====
-- What one reservation contributes to the sums of the repository, by its status.
use ragbench_kr_implementati.Prelude.{
  ◌≡◌, none, some, Bool, true, false, [], ◌∷◌, arith, if◌then◌else◌,
}
use ragbench_kr_implementati.Prelude.Int.{ℤ, pos, ◌+ℤ◌, ◌-ℤ◌, ◌≤ℤ◌, ◌<ℤ◌, leb_ℤ, ltb_ℤ, int_laws}
use ragbench_kr_implementati.Money.Records.{
  Decimal, Usage, reconciliation_required, is_open, MemoryReservation,
}
use ragbench_kr_implementati.Money.{Reservations, total, open_amount, settled_row}

-- What a row that is marked for reconciliation cost beyond its reservation.
abbrev pub excess : MemoryReservation → ℤ
excess row = elim row.status [
  | reconciliation_required ↦ elim row.settled_cost_usd [
    | none ↦ pos 0
    | some cost ↦ if ltb_ℤ row.reserved_cost_usd cost then cost -ℤ row.reserved_cost_usd else pos 0
  ]
  | _ ↦ pos 0
]

abbrev pub spent : MemoryReservation → ℤ
spent row = elim row.settled_cost_usd [ none ↦ pos 0 | some cost ↦ cost ]

abbrev pub IsNonneg : MemoryReservation → Type 0
IsNonneg row = pos 0 ≤ℤ row.reserved_cost_usd

-- Open rows have no settled cost yet.
abbrev pub IsFresh : MemoryReservation → Type 0
IsFresh row = is_open row.status ≡ true → spent row ≡ pos 0

pub not_negative : (cost : Decimal) → ltb_ℤ cost (pos 0) ≡ false → pos 0 ≤ℤ cost
not_negative cost h = ground arith

pub below_cap : (limit cost : Decimal) → leb_ℤ limit cost ≡ false → cost <ℤ limit
below_cap limit cost h = ground arith

pub excess_nonneg : (row : MemoryReservation) → pos 0 ≤ℤ excess row
unfolding ◌-ℤ◌
excess_nonneg row = ground arith

pub total_excess_nonneg : (rows : Reservations) → pos 0 ≤ℤ total excess rows
unfolding total
total_excess_nonneg [] = omega arith
total_excess_nonneg ((id, row) ∷ rows) =
    omega (int_laws, excess_nonneg row, total_excess_nonneg rows)

pub settled_not_open :
    (row : MemoryReservation) (usage : Usage) (reconcile : Bool)
    → is_open (settled_row row usage reconcile).status ≡ true
    → usage.estimated_cost_usd ≡ pos 0
settled_not_open row usage reconcile shut = ground arith

pub open_amount_open :
    (row : MemoryReservation) → is_open row.status ≡ true → open_amount row ≡ row.reserved_cost_usd
open_amount_open row is = rw is

pub excess_open : (row : MemoryReservation) → is_open row.status ≡ true → excess row ≡ pos 0
excess_open row is = ground arith

pub open_settled :
    (row : MemoryReservation) (usage : Usage) (reconcile : Bool)
    → open_amount (settled_row row usage reconcile) ≡ pos 0
open_settled row usage reconcile = ground arith

-- A settlement that is not marked for reconciliation costs at most its reservation.
pub settled_share :
    (row : MemoryReservation) (usage : Usage) (reconcile : Bool)
    → usage.estimated_cost_usd ≤ℤ row.reserved_cost_usd +ℤ excess (settled_row row usage reconcile)
unfolding ◌+ℤ◌ ◌-ℤ◌
settled_share row usage reconcile = ground arith
