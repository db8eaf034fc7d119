-- ===== src/Gateway/Calls/Closing.antt =====
-- What shuts a reservation: a settlement, or a release.
use mathlib.Core.Path.{subst}
use ragbench_kr_implementati.Prelude.{
  ◌≡◌, refl, sym, ◌∙◌, Bool, true, false, some, String, List, arith,
}
use ragbench_kr_implementati.Prelude.Assoc.{nat_key, str_key, lookup, put, lookup-put, self_key}
use ragbench_kr_implementati.Money.Records.{Uuid, Usage, MemoryReservation, is_open}
use ragbench_kr_implementati.Money.{Repository, settle, release, settled_row, released_row}

-- The reservation is not open, if it is there at all.
abbrev pub IsShut : Uuid → Repository → Type 0
IsShut id money =
    (row : MemoryReservation) → lookup id money.reservations ≡ some row → is_open row.status ≡ false

abbrev pub IsHeld : Uuid → Repository → Type 0
IsHeld id money =
    (row : MemoryReservation) × (lookup id money.reservations ≡ some row)
    × (is_open row.status ≡ true)

settled_shut :
    (row : MemoryReservation) (used : Usage) (reconcile : Bool)
    → is_open (settled_row row used reconcile).status ≡ false
settled_shut row used reconcile = ground arith

some-injective : {A : Type 0} {a b : A} → some a ≡ some b → a ≡ b
some-injective h = cc

put-IsShut :
    (id : Uuid) (new : MemoryReservation) (rows : List (Uuid × MemoryReservation))
    (row : MemoryReservation)
    → is_open new.status ≡ false
    → lookup id (put id new rows) ≡ some row
    → is_open row.status ≡ false
put-IsShut id new rows row h e =
    let there : lookup id (put id new rows) ≡ some new = rw lookup-put (rw (self_key id) refl) in
    subst (λ (r : MemoryReservation). is_open r.status ≡ false) (some-injective (sym there ∙ e)) h

pub settle-IsShut :
    (id : Uuid) (operation model_id : String) (used : Usage) (hit reconcile : Bool) (s : Repository)
    → IsHeld id s
    → IsShut id (settle id operation model_id used hit reconcile s).1
unfolding settle
settle-IsShut id operation model_id used hit reconcile s (old, there, opened) row e =
    put-IsShut id (settled_row old used reconcile) s.reservations row
      (settled_shut old used reconcile) (rw opened at (rw there at e))

pub release-IsShut : (id : Uuid) (s : Repository) → IsHeld id s → IsShut id (release id s).1
unfolding release
release-IsShut id s (old, there, opened) row e =
    put-IsShut id (released_row old) s.reservations row refl (rw opened at (rw there at e))
