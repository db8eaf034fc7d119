-- ===== src/Money/Totals.antt =====
-- How `put` moves a sum over the reservations, and keeps a property of every row.
use ragbench_kr_implementati.Prelude.{
  ◌≡◌, none, some, [], ◌∷◌, arith, All, Bool-cases, inl, inr, ◌==◌,
}
use ragbench_kr_implementati.Prelude.Int.{ℤ, ◌+ℤ◌, int_laws, parts_eq}
use ragbench_kr_implementati.Prelude.Assoc.{nat_key, lookup, put}
use ragbench_kr_implementati.Money.Records.{Uuid, MemoryReservation}
use ragbench_kr_implementati.Money.{Reservations, total}

pub total-put_new :
    (amount : MemoryReservation → ℤ) (id : Uuid) (row : MemoryReservation) (rows : Reservations)
    → lookup id rows ≡ none
    → total amount (put id row rows) ≡ total amount rows +ℤ amount row
unfolding total lookup put
total-put_new amount id row [] h = omega int_laws
total-put_new amount id row ((j, other) ∷ rows) h = elim (Bool-cases (j == id)) [
  | inl e ↦ ground arith
  | inr e ↦
      let rest = total-put_new amount id row rows (rw e at h) in
      rw e (omega (int_laws, parts_eq rest))
]

-- Replacing the row at a key replaces its share of the sum.
pub total-put_old :
    (amount : MemoryReservation → ℤ) (id : Uuid) (old row : MemoryReservation) (rows : Reservations)
    → lookup id rows ≡ some old
    → total amount (put id row rows) +ℤ amount old ≡ total amount rows +ℤ amount row
unfolding total lookup put
total-put_old amount id old row [] h = ground arith
total-put_old amount id old row ((j, other) ∷ rows) h = elim (Bool-cases (j == id)) [
  | inl e ↦ rw e (let same : other ≡ old = ground arith in rw same (omega int_laws))
  | inr e ↦
      let rest = total-put_old amount id old row rows (rw e at h) in
      rw e (omega (int_laws, parts_eq rest))
]

abbrev pub AllRows : (MemoryReservation → Type 0) → Reservations → Type 0
AllRows P = All (λ entry. P entry.1)

pub AllRows-put :
    (P : MemoryReservation → Type 0) (id : Uuid) (row : MemoryReservation) (rows : Reservations)
    → P row
    → AllRows P rows
    → AllRows P (put id row rows)
unfolding put
AllRows-put P id row [] p h = (p, tt)
AllRows-put P id row ((j, other) ∷ rows) p h = elim (Bool-cases (j == id)) [
  | inl e ↦ rw e (p, h.1)
  | inr e ↦ rw e (h.0, AllRows-put P id row rows p h.1)
]

pub AllRows-lookup :
    (P : MemoryReservation → Type 0) (id : Uuid) {row : MemoryReservation} (rows : Reservations)
    → AllRows P rows
    → lookup id rows ≡ some row
    → P row
unfolding lookup
AllRows-lookup P id [] h e = absurd (ground arith)
AllRows-lookup P id {row} ((j, other) ∷ rows) h e = elim (Bool-cases (j == id)) [
  | inl t ↦ let same : row ≡ other = ground arith in rw same h.0
  | inr t ↦ AllRows-lookup P id rows h.1 (rw t at e)
]
