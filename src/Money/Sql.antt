-- ===== src/Money/Sql.antt =====
-- src/ragbench/core/money.py, `SqlAlchemyBudgetRepository`, over the tables of ragbench/db/models.py.
-- A value that a column cannot hold makes the insert or the update raise.
-- Every method but `record_cache_hit` takes one advisory lock for its transaction, and
-- `record_cache_hit` makes a single insert, so each is one step; a method that raises has rolled
-- back. The tables are the rows in insertion order, without the columns that the database fills
-- (`ApiUsage.id`, `created_at`); the id that `uuid4` draws and the clock's reading are arguments.
pub mod Refinement
use Prim.Native.Char.{Char, code}
use ragbench_kr_implementati.Prelude.{
  ℕ, zero, suc, Option, none, some, Bool, true, false, not, ◌||◌, ◌&&◌, String, List, [], ◌∷◌, ◌++◌,
  ◌==◌, any, if◌then◌else◌,
}
use ragbench_kr_implementati.Prelude.Int.{ℤ, pos, negsuc, ◌+ℤ◌, leb_ℤ, ltb_ℤ, eqb_ℤ}
use ragbench_kr_implementati.Prelude.Result.{
  Error, Result, ok, err, budget_exceeded, runtime_error, value_error, integrity_error, data_error,
}
use ragbench_kr_implementati.Prelude.Assoc.{nat_key, lookup, put}
use ragbench_kr_implementati.Money.Records.{
  Decimal, Uuid, Usage, Status, opened, settled, reconciliation_required, released, is_open,
  Reservation,
}
use ragbench_kr_implementati.Money.{granted}

pub record ApiUsage : Type 0 where
  pub correlation_id : Uuid
  pub operation : String
  pub provider_model_id : String
  pub input_tokens : ℤ
  pub output_tokens : ℤ
  pub billable_pages : ℤ
  pub estimated_cost_usd : Decimal
  pub cache_hit : Bool

-- A row of `budget_reservation`, without its primary key.
pub record BudgetReservation : Type 0 where
  pub correlation_id : Uuid
  pub reserved_cost_usd : Decimal
  pub settled_cost_usd : Option Decimal
  pub status : Status
  pub settled_at : Option ℕ

pub record Database : Type 0 where
  pub api_usage : List ApiUsage
  pub budget_reservation : List (Uuid × BudgetReservation)

-- `String(n)`: PostgreSQL refuses a zero character, and cuts off blanks, and blanks only, beyond n
-- characters.
unfoldable pub only_blanks : String → Bool
only_blanks String.[] = true
only_blanks (String.◌∷◌ c s) = code c == 32 && only_blanks s

abbrev pub begin_with : Char → Option String → Option String
begin_with c none = none
begin_with c (some s) = if code c == 0 then none else some (String.◌∷◌ c s)

unfoldable pub string_column : ℕ → String → Option String
unfolding only_blanks
string_column n String.[] = some ""
string_column zero (String.◌∷◌ c s) = if only_blanks (String.◌∷◌ c s) then some "" else none
string_column (suc n) (String.◌∷◌ c s) = begin_with c (string_column n s)

-- `Integer`: -2147483648 to 2147483647.
abbrev pub fits_integer : ℤ → Bool
fits_integer n = leb_ℤ (negsuc 2147483647) n && leb_ℤ n (pos 2147483647)

-- `Numeric(12, 6)`: below 10^12 money quanta, in absolute value.
abbrev pub fits_numeric : Decimal → Bool
fits_numeric amount = leb_ℤ (negsuc 999999999998) amount && leb_ℤ amount (pos 999999999999)

abbrev pub both_texts : Option String → Option String → Option (String × String)
both_texts none _ = none
both_texts (some operation) none = none
both_texts (some operation) (some model_id) = some (operation, model_id)

-- The operation and the model id that a row of `api_usage` gets, when its values fit.
unfoldable pub accepted : String → String → Usage → Option (String × String)
unfolding string_column
accepted operation model_id usage =
    if fits_integer usage.input_tokens
      && fits_integer usage.output_tokens
      && fits_integer usage.billable_pages
      && fits_numeric usage.estimated_cost_usd
    then both_texts (string_column 64 operation) (string_column 255 model_id)
    else none

abbrev pub Method : Type 0 → Type 0
Method A = Database → Result A × Database

-- `SELECT coalesce(sum(estimated_cost_usd), 0)`.
unfoldable pub sum_usage : List ApiUsage → Decimal
sum_usage [] = pos 0
sum_usage (row ∷ rows) = row.estimated_cost_usd +ℤ sum_usage rows

-- `SELECT coalesce(sum(reserved_cost_usd), 0) WHERE status = 'open'`.
unfoldable pub sum_open : List (Uuid × BudgetReservation) → Decimal
sum_open [] = pos 0
sum_open ((id, row) ∷ rows) =
    (if is_open row.status then row.reserved_cost_usd else pos 0) +ℤ sum_open rows

-- The primary key and the unique constraint on `correlation_id`.
abbrev pub collides : Uuid → Uuid → List (Uuid × BudgetReservation) → Bool
collides id correlation_id =
    any (λ entry. entry.0 == id || entry.1.correlation_id == correlation_id)

unfoldable pub reserve_atomic : Uuid → Uuid → Decimal → Decimal → Method Reservation
unfolding sum_usage sum_open
reserve_atomic id correlation_id projected_cost hard_limit db =
    let committed = sum_usage db.api_usage in
    let reserved = sum_open db.budget_reservation in
    if leb_ℤ hard_limit (committed +ℤ reserved +ℤ projected_cost)
    then (err (budget_exceeded "projected provider cost reaches the hard budget limit"), db)
    else if collides id correlation_id db.budget_reservation
    then (err (if fits_numeric projected_cost then integrity_error else data_error), db)
    else if not (fits_numeric projected_cost)
    then (err data_error, db)
    else (
      ok (granted id correlation_id projected_cost),
      record db {
        budget_reservation =
            put id
              (record {
                correlation_id = correlation_id;
                reserved_cost_usd = projected_cost;
                settled_cost_usd = none;
                status = opened;
                settled_at = none;
              })
              db.budget_reservation;
      },
    )

abbrev pub settled_row : BudgetReservation → Usage → Bool → ℕ → BudgetReservation
settled_row row usage reconciliation now = record row {
  status =
      if reconciliation || ltb_ℤ row.reserved_cost_usd usage.estimated_cost_usd
      then reconciliation_required
      else settled;
  settled_cost_usd = some usage.estimated_cost_usd;
  settled_at = some now;
}

abbrev pub usage_row : Uuid → String → String → Usage → Bool → ApiUsage
usage_row correlation_id operation model_id usage cache_hit = record {
  correlation_id = correlation_id;
  operation = operation;
  provider_model_id = model_id;
  input_tokens = usage.input_tokens;
  output_tokens = usage.output_tokens;
  billable_pages = usage.billable_pages;
  estimated_cost_usd = usage.estimated_cost_usd;
  cache_hit = cache_hit;
}

-- A transaction that inserts a usage row.
abbrev pub inserting : Option (String × String) → (String × String → Database) → Method (Unit {0})
inserting none after db = (err data_error, db)
inserting (some texts) after db = (ok tt, after texts)

settle_row :
    Uuid → String → String → Usage → Bool → Bool → ℕ → Option BudgetReservation → Method (Unit {0})
unfolding accepted
settle_row id operation model_id usage cache_hit reconciliation now none db =
    (err (runtime_error "only open reservations can be settled"), db)
settle_row id operation model_id usage cache_hit reconciliation now (some row) db =
    if is_open row.status
    then inserting (accepted operation model_id usage)
        (λ texts. record {
          api_usage =
              db.api_usage ++ usage_row row.correlation_id texts.0 texts.1 usage cache_hit ∷ [];
          budget_reservation =
              put id (settled_row row usage reconciliation now) db.budget_reservation;
        })
        db
    else (err (runtime_error "only open reservations can be settled"), db)

unfoldable pub settle : Uuid → String → String → Usage → Bool → Bool → ℕ → Method (Unit {0})
unfolding settle_row
settle id operation model_id usage cache_hit reconciliation now db =
    settle_row id operation model_id usage cache_hit reconciliation now
      (lookup id db.budget_reservation) db

abbrev pub released_row : BudgetReservation → ℕ → BudgetReservation
released_row row now = record row {
  status = released;
  settled_cost_usd = some (pos 0);
  settled_at = some now;
}

release_row : Uuid → ℕ → Option BudgetReservation → Method (Unit {0})
release_row id now none db = (ok tt, db)
release_row id now (some row) db =
    if is_open row.status
    then (
      ok tt,
      record db { budget_reservation = put id (released_row row now) db.budget_reservation },
    )
    else (ok tt, db)

unfoldable pub release : Uuid → ℕ → Method (Unit {0})
unfolding release_row
release id now db = release_row id now (lookup id db.budget_reservation) db

unfoldable pub record_cache_hit : Uuid → String → String → Usage → Method (Unit {0})
unfolding accepted
record_cache_hit correlation_id operation model_id usage db =
    if eqb_ℤ usage.estimated_cost_usd (pos 0)
    then inserting (accepted operation model_id usage)
        (λ texts. record db {
          api_usage = db.api_usage ++ usage_row correlation_id texts.0 texts.1 usage true ∷ [];
        })
        db
    else (err (value_error "cache-hit accounting is restricted to zero-cost usage"), db)
