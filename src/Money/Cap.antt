-- ===== src/Money/Cap.antt =====
-- The hard cap: what stays committed, and what a settlement above its reservation may add.
use ragbench_kr_implementati.Prelude.{
  ◌≡◌, ◌≢◌, refl, none, some, Bool, false, Option, String, [], ◌∷◌, arith, Bool-cases, inl, inr,
}
use ragbench_kr_implementati.Prelude.Int.{
  pos, ◌+ℤ◌, ◌≤ℤ◌, ◌<ℤ◌, leb_ℤ, ltb_ℤ, eqb_ℤ, int_laws, parts_eq,
}
use ragbench_kr_implementati.Prelude.Assoc.{nat_key, lookup, put}
use ragbench_kr_implementati.Money.Records.{
  Decimal, Uuid, Usage, reconciliation_required, is_open, MemoryReservation,
}
use ragbench_kr_implementati.Money.{
  Repository, Reservations, new_row, total, open_amount, open_cost, settled_row, released_row,
  settle_row, settle, release_row, release, record_cache_hit, guard_reserve, Step, reserving,
  settling, releasing, cache_hitting, Reach, here, next, new_repository,
}
use ragbench_kr_implementati.Money.Shares.{
  excess, spent, IsNonneg, IsFresh, not_negative, below_cap, total_excess_nonneg, settled_not_open,
  open_amount_open, excess_open, open_settled, settled_share,
}
use ragbench_kr_implementati.Money.Totals.{
  AllRows, AllRows-put, AllRows-lookup, total-put_new, total-put_old,
}

pub record IsSound (hard_limit base : Decimal) (s : Repository) : Type 0 where
  pub nonneg : AllRows IsNonneg s.reservations
  pub fresh : AllRows IsFresh s.reservations
  pub within_cap :
      s.settled_cost +ℤ open_cost s.reservations <ℤ hard_limit +ℤ total excess s.reservations
  pub balanced : s.settled_cost ≡ base +ℤ total spent s.reservations

module _ {hard_limit base : Decimal} {s : Repository} (sound : IsSound hard_limit base s) where
  open sound use {nonneg, fresh, within_cap, balanced}

  -- A reservation that the guard lets through.
  reserved-IsSound :
      (id correlation_id : Uuid) (cost : Decimal)
      → lookup id s.reservations ≡ none
      → pos 0 ≤ℤ cost
      → leb_ℤ hard_limit (s.settled_cost +ℤ open_cost s.reservations +ℤ cost) ≡ false
      → IsSound hard_limit base
          (record s { reservations = put id (new_row id correlation_id cost) s.reservations })
  reserved-IsSound id correlation_id cost absent positive below =
      let row = new_row id correlation_id cost in
      let put_open = total-put_new open_amount id row s.reservations absent in
      let put_excess = total-put_new excess id row s.reservations absent in
      let put_spent = total-put_new spent id row s.reservations absent in
      record {
        nonneg = AllRows-put IsNonneg id row s.reservations positive nonneg;
        fresh = AllRows-put IsFresh id row s.reservations (λ _. refl) fresh;
        within_cap = omega (
          int_laws,
          below_cap hard_limit (s.settled_cost +ℤ open_cost s.reservations +ℤ cost) below,
          parts_eq put_open,
          parts_eq put_excess,
          total_excess_nonneg s.reservations,
        );
        balanced = omega (int_laws, parts_eq balanced, parts_eq put_spent);
      }

  guard_reserve-IsSound :
      (id correlation_id : Uuid) (cost : Decimal)
      → lookup id s.reservations ≡ none
      → IsSound hard_limit base (guard_reserve hard_limit id correlation_id cost s).1
  unfolding guard_reserve
  guard_reserve-IsSound id correlation_id cost absent = elim (Bool-cases (ltb_ℤ cost (pos 0))) [
    | inl negative ↦ rw negative sound
    | inr positive ↦
        rw positive
          (elim (Bool-cases
            (leb_ℤ hard_limit (s.settled_cost +ℤ open_cost s.reservations +ℤ cost))) [
              | inl reached ↦ rw reached sound
              | inr below ↦ rw below (
                  reserved-IsSound id correlation_id cost absent (not_negative cost positive) below)
            ])
  ]

  settle_row-IsSound :
      (id : Uuid) (operation model_id : String) (usage : Usage) (hit reconcile : Bool)
      (found : Option MemoryReservation)
      → lookup id s.reservations ≡ found
      → IsSound hard_limit base (settle_row id operation model_id usage hit reconcile found s).1
  unfolding settle_row
  settle_row-IsSound id operation model_id usage hit reconcile none e = sound
  settle_row-IsSound id operation model_id usage hit reconcile (some row) e =
      elim (Bool-cases (is_open row.status)) [
        | inr shut ↦ rw shut sound
        | inl is ↦ rw is (
            let new = settled_row row usage reconcile in
            let put_open = total-put_old open_amount id row new s.reservations e in
            let put_excess = total-put_old excess id row new s.reservations e in
            let put_spent = total-put_old spent id row new s.reservations e in
            let old_spent = AllRows-lookup IsFresh id s.reservations fresh e is in
            let open_share = open_amount_open row is in
            record {
              nonneg =
                  AllRows-put IsNonneg id new s.reservations
                    (AllRows-lookup IsNonneg id s.reservations nonneg e) nonneg;
              fresh =
                  AllRows-put IsFresh id new s.reservations
                    (λ shut. settled_not_open row usage reconcile shut) fresh;
              within_cap = omega (
                int_laws,
                parts_eq put_open,
                parts_eq put_excess,
                parts_eq open_share,
                settled_share row usage reconcile,
                parts_eq (excess_open row is),
                parts_eq (open_settled row usage reconcile),
              );
              balanced =
                  omega (int_laws, parts_eq balanced, parts_eq put_spent, parts_eq old_spent);
            })
      ]

  release_row-IsSound :
      (id : Uuid) (found : Option MemoryReservation)
      → lookup id s.reservations ≡ found
      → IsSound hard_limit base (release_row id found s).1
  unfolding release_row
  release_row-IsSound id none e = sound
  release_row-IsSound id (some row) e = elim (Bool-cases (is_open row.status)) [
    | inr shut ↦ rw shut sound
    | inl is ↦ rw is (
        let new = released_row row in
        let put_open = total-put_old open_amount id row new s.reservations e in
        let put_excess = total-put_old excess id row new s.reservations e in
        let put_spent = total-put_old spent id row new s.reservations e in
        let old_spent = AllRows-lookup IsFresh id s.reservations fresh e is in
        let old_reserved = AllRows-lookup IsNonneg id s.reservations nonneg e in
        let open_share = open_amount_open row is in
        record {
          nonneg = AllRows-put IsNonneg id new s.reservations old_reserved nonneg;
          fresh = AllRows-put IsFresh id new s.reservations (λ _. refl) fresh;
          within_cap = omega (
            int_laws,
            parts_eq put_open,
            parts_eq put_excess,
            parts_eq open_share,
            parts_eq (excess_open row is),
          );
          balanced = omega (int_laws, parts_eq balanced, parts_eq put_spent, parts_eq old_spent);
        })
  ]

  record_cache_hit-IsSound :
      (correlation_id : Uuid) (operation model_id : String) (usage : Usage)
      → IsSound hard_limit base (record_cache_hit correlation_id operation model_id usage s).1
  unfolding record_cache_hit
  record_cache_hit-IsSound correlation_id operation model_id usage =
      elim (Bool-cases (eqb_ℤ usage.estimated_cost_usd (pos 0))) [
        | inl zero_cost ↦ rw zero_cost (record {
          nonneg = nonneg;
          fresh = fresh;
          within_cap = within_cap;
          balanced = balanced;
        })
        | inr costly ↦ rw costly sound
      ]

Step-IsSound :
    {hard_limit base : Decimal} {s t : Repository}
    → Step hard_limit s t
    → IsSound hard_limit base s
    → IsSound hard_limit base t
unfolding settle release
Step-IsSound (reserving id correlation_id cost absent) sound =
    guard_reserve-IsSound sound id correlation_id cost absent
Step-IsSound (settling id operation model_id usage hit reconcile) sound =
    settle_row-IsSound sound id operation model_id usage hit reconcile _ refl
Step-IsSound (releasing id) sound = release_row-IsSound sound id _ refl
Step-IsSound (cache_hitting correlation_id operation model_id usage) sound =
    record_cache_hit-IsSound sound correlation_id operation model_id usage

pub Reach-IsSound :
    {hard_limit base : Decimal} {s t : Repository}
    → IsSound hard_limit base s
    → Reach hard_limit s t
    → IsSound hard_limit base t
Reach-IsSound sound here = sound
Reach-IsSound sound (next reach step) = Step-IsSound step (Reach-IsSound sound reach)

new_repository-IsSound :
    (hard_limit base : Decimal) → base <ℤ hard_limit → IsSound hard_limit base (new_repository base)
unfolding total
new_repository-IsSound hard_limit base below = record {
  nonneg = tt;
  fresh = tt;
  within_cap = omega int_laws;
  balanced = omega int_laws;
}

-- From a repository whose settled cost is below the cap, whatever tasks reserve, settle, release
-- and record through one guard, in whatever order and whether the calls return or raise: the
-- settled cost plus the open reservations stays below the cap plus what the settlements marked
-- for reconciliation cost beyond their reservations.
pub Reach-lt_cap :
    (hard_limit base : Decimal) (t : Repository)
    → base <ℤ hard_limit
    → Reach hard_limit (new_repository base) t
    → t.settled_cost +ℤ open_cost t.reservations <ℤ hard_limit +ℤ total excess t.reservations
Reach-lt_cap hard_limit base t below reach =
    (Reach-IsSound (new_repository-IsSound hard_limit base below) reach).within_cap

abbrev pub IsReconciled : MemoryReservation → Type 0
IsReconciled row = row.status ≢ reconciliation_required

total_excess_zero : (rows : Reservations) → AllRows IsReconciled rows → total excess rows ≡ pos 0
unfolding total
total_excess_zero [] h = refl
total_excess_zero ((id, row) ∷ rows) h =
    let zero_row : excess row ≡ pos 0 = ground (arith, h.0) in
    omega (int_laws, parts_eq zero_row, parts_eq (total_excess_zero rows h.1))

-- As long as no reservation is marked for reconciliation, the settled cost plus the open
-- reservations is below the cap, and the settled cost is the initial one plus the costs that the
-- reservations were settled at.
pub Reach-lt_hard_limit :
    (hard_limit base : Decimal) (t : Repository)
    → base <ℤ hard_limit
    → Reach hard_limit (new_repository base) t
    → AllRows IsReconciled t.reservations
    → (t.settled_cost +ℤ open_cost t.reservations <ℤ hard_limit)
      × (t.settled_cost ≡ base +ℤ total spent t.reservations)
Reach-lt_hard_limit hard_limit base t below reach reconciled =
    let sound = Reach-IsSound (new_repository-IsSound hard_limit base below) reach in
    (
      omega (int_laws, sound.within_cap, parts_eq (total_excess_zero t.reservations reconciled)),
      sound.balanced,
    )
