-- ===== src/Money/Outcomes.antt =====
-- What each method of the repository answers, branch by branch, and what it leaves alone.
use ragbench_kr_implementati.Prelude.{
  ◌≡◌, refl, ◌⊎◌, none, some, Option, true, false, String, Bool, arith, Bool-cases, inl, inr,
  if◌then◌else◌,
}
use ragbench_kr_implementati.Prelude.Int.{pos, ◌+ℤ◌, ◌≤ℤ◌, ◌<ℤ◌, leb_ℤ, ltb_ℤ, eqb_ℤ}
use ragbench_kr_implementati.Prelude.Result.{
  Error, Result, ok, err, budget_exceeded, value_error, runtime_error, key_error,
}
use ragbench_kr_implementati.Prelude.Assoc.{nat_key, lookup, lookup-put, self_key}
use ragbench_kr_implementati.Money.Records.{Decimal, Uuid, Usage, is_open, MemoryReservation}
use ragbench_kr_implementati.Money.{
  Repository, granted, new_row, open_cost, open_amount, settled_row, settle_row, settle,
  release_row, release, record_cache_hit, guard_reserve,
}
use ragbench_kr_implementati.Money.Shares.{not_negative, below_cap}
use ragbench_kr_implementati.Money.Totals.{total-put_new}

abbrev pub over_budget : Error
over_budget = budget_exceeded "projected provider cost reaches the hard budget limit"

-- The guard's reservation, on every branch: a negative projection is refused as a value error; one
-- with which the settled cost plus the open reservations would reach the cap is refused as over
-- budget; both leave the repository as it was. Any other is granted: the row is stored open under
-- its id, the open cost grows by exactly its amount, and the settled cost and the usages stay.
pub guard_reserve_outcome :
    (hard_limit : Decimal) (id correlation_id : Uuid) (cost : Decimal) (s : Repository)
    → lookup id s.reservations ≡ none
    → let after = guard_reserve hard_limit id correlation_id cost s in
      let held = s.settled_cost +ℤ open_cost s.reservations +ℤ cost in
      ((cost <ℤ pos 0) × (after ≡ (err (value_error "projected_cost cannot be negative"), s)))
      ⊎ ((pos 0 ≤ℤ cost) × (hard_limit ≤ℤ held) × (after ≡ (err over_budget, s)))
      ⊎ ((pos 0 ≤ℤ cost)
          × (held <ℤ hard_limit)
          × (after.0 ≡ ok (granted id correlation_id cost))
          × (lookup id after.1.reservations ≡ some (new_row id correlation_id cost))
          × (open_cost after.1.reservations ≡ open_cost s.reservations +ℤ cost)
          × (after.1.settled_cost ≡ s.settled_cost)
          × (after.1.usages ≡ s.usages))
unfolding guard_reserve
guard_reserve_outcome hard_limit id correlation_id cost s absent =
    let held = s.settled_cost +ℤ open_cost s.reservations +ℤ cost in
    elim (Bool-cases (ltb_ℤ cost (pos 0))) [
      | inl negative ↦ inl (ground arith, rw negative)
      | inr positive ↦ inr (elim (Bool-cases (leb_ℤ hard_limit held)) [
        | inl reached ↦ inl (not_negative cost positive, ground arith, rw positive (rw reached))
        | inr below ↦ inr (
          not_negative cost positive,
          below_cap hard_limit held below,
          rw positive (rw below),
          rw positive (rw below (rw lookup-put (rw (self_key id)))),
          rw positive (
              rw below (
                total-put_new open_amount id (new_row id correlation_id cost) s.reservations
                  absent)),
          rw positive (rw below),
          rw positive (rw below),
        )
      ])
    ]

abbrev pub not_open : Error
not_open = runtime_error "only open reservations can be settled"

settle_shut :
    (id : Uuid) (operation model_id : String) (usage : Usage) (hit reconcile : Bool)
    (row : MemoryReservation) (t : Repository)
    → lookup id t.reservations ≡ some row
    → is_open row.status ≡ false
    → settle id operation model_id usage hit reconcile t ≡ (err not_open, t)
unfolding settle
settle_shut id operation model_id usage hit reconcile row t found shut = rw found (rw shut)

release_shut :
    (id : Uuid) (row : MemoryReservation) (t : Repository)
    → lookup id t.reservations ≡ some row
    → is_open row.status ≡ false
    → release id t ≡ (ok tt, t)
unfolding release
release_shut id row t found shut = rw found (rw shut)

settled_shut :
    (row : MemoryReservation) (usage : Usage) (reconcile : Bool)
    → is_open (settled_row row usage reconcile).status ≡ false
settled_shut row usage reconcile = ground arith

-- A settlement that returns has found an open row, and leaves it shut.
settled_lookup :
    (id : Uuid) (operation model_id : String) (usage : Usage) (hit reconcile : Bool)
    (found : Option MemoryReservation) (s : Repository)
    → (settle_row id operation model_id usage hit reconcile found s).0 ≡ ok tt
    → (row : MemoryReservation) × (lookup id
          (settle_row id operation model_id usage hit reconcile found s).1.reservations
        ≡ some row)
      × (is_open row.status ≡ false)
unfolding settle_row
settled_lookup id operation model_id usage hit reconcile none s done = cc
settled_lookup id operation model_id usage hit reconcile (some row) s done =
    elim (Bool-cases (is_open row.status)) [
      | inl is ↦ (
        settled_row row usage reconcile,
        rw is (rw lookup-put (rw (self_key id))),
        settled_shut row usage reconcile,
      )
      | inr shut ↦ absurd (let bad = rw shut at done in cc)
    ]

-- A settlement that returned can not be repeated: settling the same reservation again raises, and
-- releasing it is ignored; neither changes the repository.
pub settle_once :
    (id : Uuid) (operation model_id : String) (usage usage' : Usage)
    (hit reconcile hit' reconcile' : Bool) (s : Repository)
    → (settle id operation model_id usage hit reconcile s).0 ≡ ok tt
    → let t = (settle id operation model_id usage hit reconcile s).1 in
      (settle id operation model_id usage' hit' reconcile' t ≡ (err not_open, t))
      × (release id t ≡ (ok tt, t))
unfolding settle
settle_once id operation model_id usage usage' hit reconcile hit' reconcile' s done =
    let (row, found, shut) =
      settled_lookup id operation model_id usage hit reconcile (lookup id s.reservations) s done in
    let t = (settle id operation model_id usage hit reconcile s).1 in
    (
      settle_shut id operation model_id usage' hit' reconcile' row t found shut,
      release_shut id row t found shut,
    )

-- A call that returns, or raises with the repository as it was.
abbrev pub IsAtomic {ℓ} : {A : Type ℓ} → Repository → Result A × Repository → Type ℓ
IsAtomic {A} s call = ((a : A) × (call.0 ≡ ok a)) ⊎ ((e : Error) × (call ≡ (err e, s)))

IsAtomic-if {ℓ} :
    {A : Type ℓ} (s : Repository) (test : Bool) (x y : Result A × Repository)
    → IsAtomic s x
    → IsAtomic s y
    → IsAtomic s (if test then x else y)
IsAtomic-if s true x y h k = h
IsAtomic-if s false x y h k = k

settle_row-IsAtomic :
    (id : Uuid) (operation model_id : String) (usage : Usage) (hit reconcile : Bool)
    (found : Option MemoryReservation) (s : Repository)
    → IsAtomic s (settle_row id operation model_id usage hit reconcile found s)
unfolding settle_row
settle_row-IsAtomic id operation model_id usage hit reconcile none s = inr (key_error, refl)
settle_row-IsAtomic id operation model_id usage hit reconcile (some row) s =
    IsAtomic-if s (is_open row.status) _ _ (inl (tt, refl)) (inr (not_open, refl))

release_row-IsAtomic :
    (id : Uuid) (found : Option MemoryReservation) (s : Repository)
    → IsAtomic s (release_row id found s)
unfolding release_row
release_row-IsAtomic id none s = inr (key_error, refl)
release_row-IsAtomic id (some row) s =
    IsAtomic-if s (is_open row.status) _ _ (inl (tt, refl)) (inl (tt, refl))

-- Each of the four calls of the guard, a reservation, a settlement, a release and a cache hit,
-- returns, or raises and leaves the repository as it was.
pub error_keeps :
    (hard_limit : Decimal) (id correlation_id : Uuid) (cost : Decimal) (operation model_id : String)
    (usage : Usage) (hit reconcile : Bool) (s : Repository)
    → IsAtomic s (guard_reserve hard_limit id correlation_id cost s)
      × IsAtomic s (settle id operation model_id usage hit reconcile s)
      × IsAtomic s (release id s)
      × IsAtomic s (record_cache_hit correlation_id operation model_id usage s)
unfolding guard_reserve settle release record_cache_hit
error_keeps hard_limit id correlation_id cost operation model_id usage hit reconcile s = (
  IsAtomic-if s (ltb_ℤ cost (pos 0)) _ _ (inr (_, refl)) (
      IsAtomic-if s (leb_ℤ hard_limit (s.settled_cost +ℤ open_cost s.reservations +ℤ cost)) _ _
        (inr (_, refl)) (inl (_, refl))),
  settle_row-IsAtomic id operation model_id usage hit reconcile (lookup id s.reservations) s,
  release_row-IsAtomic id (lookup id s.reservations) s,
  IsAtomic-if s (eqb_ℤ usage.estimated_cost_usd (pos 0)) _ _ (inl (tt, refl)) (inr (_, refl)),
)
