-- ===== src/Money/Sql/Refinement.antt =====
-- The methods of the database repository beside those of the in-memory one, read through `to_memory`.
use mathlib.Core.List.{map-append}
use ragbench_kr_implementati.Prelude.{
  ◌≡◌, ◌⊎◌, refl, ap, none, some, Option, Bool, true, false, String, List, [], ◌∷◌, ◌++◌, map,
  arith, Bool-cases, inl, inr, ◌==◌, ==_iff, ℕ,
}
use ragbench_kr_implementati.Prelude.Int.{pos, ◌+ℤ◌, leb_ℤ, eqb_ℤ, int_laws, parts_eq}
use ragbench_kr_implementati.Prelude.Result.{Error, Result, ok, err, data_error}
use ragbench_kr_implementati.Prelude.Assoc.{nat_key, lookup, put}
use ragbench_kr_implementati.Money
use ragbench_kr_implementati.Money.Records.{
  Decimal, Uuid, Usage, UsageRecord, MemoryReservation, is_open,
}
use ragbench_kr_implementati.Money.{Repository, Reservations, total, open_amount, open_cost}
use ragbench_kr_implementati.Money.Sql.{
  ApiUsage, BudgetReservation, Database, sum_usage, sum_open, collides, reserve_atomic, settle_row,
  settle, accepted, fits_numeric, inserting, release_row, release, record_cache_hit,
}

abbrev to_row : Uuid → BudgetReservation → MemoryReservation
to_row id row = record {
  id = id;
  correlation_id = row.correlation_id;
  reserved_cost_usd = row.reserved_cost_usd;
  status = row.status;
  settled_cost_usd = row.settled_cost_usd;
}

abbrev to_entry : (Uuid × BudgetReservation) → (Uuid × MemoryReservation)
to_entry entry = (entry.0, to_row entry.0 entry.1)

abbrev to_usage : ApiUsage → UsageRecord
to_usage row = record {
  correlation_id = row.correlation_id;
  operation = row.operation;
  model_id = row.provider_model_id;
  usage = record {
    input_tokens = row.input_tokens;
    output_tokens = row.output_tokens;
    billable_pages = row.billable_pages;
    estimated_cost_usd = row.estimated_cost_usd;
  };
  cache_hit = row.cache_hit;
}

-- The repository that the tables stand for: the settled cost is the sum over `api_usage`.
abbrev pub to_memory : Database → Repository
to_memory db = record {
  settled_cost = sum_usage db.api_usage;
  reservations = map to_entry db.budget_reservation;
  usages = map to_usage db.api_usage;
}

abbrev pub answers : {A : Type 0} → Result A × Database → Result A × Repository
answers (r, db) = (r, to_memory db)

sum_open_lem :
    (rows : List (Uuid × BudgetReservation)) → sum_open rows ≡ open_cost (map to_entry rows)
unfolding sum_open total
sum_open_lem [] = refl
sum_open_lem ((id, row) ∷ rows) = ap (λ n. open_amount (to_row id row) +ℤ n) (sum_open_lem rows)

sum_usage-append :
    (rows : List ApiUsage) (row : ApiUsage)
    → sum_usage (rows ++ row ∷ []) ≡ sum_usage rows +ℤ row.estimated_cost_usd
unfolding sum_usage
sum_usage-append [] row = omega int_laws
sum_usage-append (x ∷ rows) row = omega (int_laws, parts_eq (sum_usage-append rows row))

add_zero_cost : (total cost : Decimal) → eqb_ℤ cost (pos 0) ≡ true → total +ℤ cost ≡ total
unfolding ◌+ℤ◌
add_zero_cost total cost e = ground arith

abbrev to_found : Uuid → Option BudgetReservation → Option MemoryReservation
to_found id none = none
to_found id (some row) = some (to_row id row)

lookup-to_entry :
    (id : Uuid) (rows : List (Uuid × BudgetReservation))
    → lookup id (map to_entry rows) ≡ to_found id (lookup id rows)
unfolding lookup
lookup-to_entry id [] = refl
lookup-to_entry id ((j, row) ∷ rows) = elim (Bool-cases (j == id)) [
  | inl e ↦ rw e (ap (λ k. some (to_row k row)) ((==_iff j id).0 e))
  | inr e ↦ rw e (lookup-to_entry id rows)
]

put-to_entry :
    (id : Uuid) (row : BudgetReservation) (rows : List (Uuid × BudgetReservation))
    → map to_entry (put id row rows) ≡ put id (to_row id row) (map to_entry rows)
unfolding put
put-to_entry id row [] = refl
put-to_entry id row ((j, other) ∷ rows) = elim (Bool-cases (j == id)) [
  | inl e ↦ rw e (ap (λ k. (j, to_row k row) ∷ map to_entry rows) ((==_iff j id).0 e))
  | inr e ↦ rw e (ap (λ rest. (j, to_row j other) ∷ rest) (put-to_entry id row rows))
]

-- As long as no row has the new id or the correlation id, the database reserves as the in-memory
-- repository does, with the same answer and the same repository after it, unless the cost does not
-- fit its column: then it raises and the tables stay.
pub reserve_atomic-refines :
    (id correlation_id : Uuid) (cost hard_limit : Decimal) (db : Database)
    → collides id correlation_id db.budget_reservation ≡ false
    → let call = reserve_atomic id correlation_id cost hard_limit db in
      (answers call ≡ Money.reserve_atomic id correlation_id cost hard_limit (to_memory db))
      ⊎ ((fits_numeric cost ≡ false) × (call ≡ (err data_error, db)))
unfolding reserve_atomic Money.reserve_atomic
reserve_atomic-refines id correlation_id cost hard_limit db free =
    rw (← sum_open_lem db.budget_reservation)
      (elim (Bool-cases
        (leb_ℤ hard_limit (sum_usage db.api_usage +ℤ sum_open db.budget_reservation +ℤ cost))) [
          | inl reached ↦ inl (rw reached refl)
          | inr below ↦ elim (Bool-cases (fits_numeric cost)) [
            | inl fits ↦ inl (rw below (rw free (rw fits (rw put-to_entry refl))))
            | inr large ↦ inr (large, rw below (rw free (rw large refl)))
          ]
        ])

-- Values that fit their columns, which get the texts as stored: the call is that of memory. Others:
-- the call raises and leaves the tables.
abbrev pub Agrees :
    Option (String × String)
    → Database
    → Result (Unit {0}) × Database
    → (String × String → Result (Unit {0}) × Repository)
    → Type 0
Agrees fitting db call memory =
    ((texts : String × String) × (fitting ≡ some texts) × (answers call ≡ memory texts))
    ⊎ ((fitting ≡ none) × (e : Error) × (call ≡ (err e, db)))

inserting-Agrees :
    (fitting : Option (String × String)) (db : Database) (after : String × String → Database)
    (memory : String × String → Result (Unit {0}) × Repository)
    → ((texts : String × String) → (ok tt, to_memory (after texts)) ≡ memory texts)
    → Agrees fitting db (inserting fitting after db) memory
inserting-Agrees none db after memory h = inr (refl, data_error, refl)
inserting-Agrees (some texts) db after memory h = inl (texts, refl, h texts)

raising-Agrees :
    (fitting : Option (String × String)) (db : Database) (e : Error)
    (memory : String × String → Result (Unit {0}) × Repository)
    → ((texts : String × String) → (err e, to_memory db) ≡ memory texts)
    → Agrees fitting db (err e, db) memory
raising-Agrees none db e memory h = inr (refl, e, refl)
raising-Agrees (some texts) db e memory h = inl (texts, refl, h texts)

settle_row-refines :
    (id : Uuid) (operation model_id : String) (usage : Usage) (hit reconcile : Bool) (now : ℕ)
    (row : BudgetReservation) (db : Database)
    → Agrees
        (accepted operation model_id usage)
        db
        (settle_row id operation model_id usage hit reconcile now (some row) db)
        (λ texts.
          Money.settle_row id texts.0 texts.1 usage hit reconcile
            (some (to_row id row))
            (to_memory db))
unfolding settle_row Money.settle_row
settle_row-refines id operation model_id usage hit reconcile now row db =
    elim (Bool-cases (is_open row.status)) [
      | inl is ↦ rw is (
          inserting-Agrees (accepted operation model_id usage) db _ _
            (λ texts. simp (put-to_entry, sum_usage-append, map-append)))
      | inr shut ↦
          rw shut (raising-Agrees (accepted operation model_id usage) db _ _ (λ texts. refl))
    ]

release_row-refines :
    (id : Uuid) (now : ℕ) (row : BudgetReservation) (db : Database)
    → answers (release_row id now (some row) db)
      ≡ Money.release_row id (some (to_row id row)) (to_memory db)
unfolding release_row Money.release_row
release_row-refines id now row db = elim (Bool-cases (is_open row.status)) [
  | inl is ↦ rw is (simp put-to_entry)
  | inr shut ↦ rw shut
]

-- For a reservation that is there, settling and releasing it in the database answer as they do in
-- memory, and lead to the same repository; so does recording a cache hit. The texts of a usage are
-- those that its columns keep; when a value does not fit its column, settling and recording raise and
-- leave the tables as they were.
pub methods-refine :
    (id correlation_id : Uuid) (operation model_id : String) (usage : Usage) (hit reconcile : Bool)
    (now : ℕ) (row : BudgetReservation) (db : Database)
    → lookup id db.budget_reservation ≡ some row
    → Agrees
        (accepted operation model_id usage)
        db
        (settle id operation model_id usage hit reconcile now db)
        (λ texts. Money.settle id texts.0 texts.1 usage hit reconcile (to_memory db))
      × (answers (release id now db) ≡ Money.release id (to_memory db))
      × Agrees
          (accepted operation model_id usage)
          db
          (record_cache_hit correlation_id operation model_id usage db)
          (λ texts. Money.record_cache_hit correlation_id texts.0 texts.1 usage (to_memory db))
unfolding settle release record_cache_hit Money.settle Money.release Money.record_cache_hit
methods-refine id correlation_id operation model_id usage hit reconcile now row db found = (
  rw (lookup-to_entry, found)
      (settle_row-refines id operation model_id usage hit reconcile now row db),
  rw (lookup-to_entry, found) (release_row-refines id now row db),
  elim (Bool-cases (eqb_ℤ usage.estimated_cost_usd (pos 0))) [
    | inl e ↦ rw e (
        inserting-Agrees (accepted operation model_id usage) db _ _ (λ texts.
          simp (sum_usage-append, map-append)
            (rw (add_zero_cost (sum_usage db.api_usage) usage.estimated_cost_usd e))))
    | inr e ↦ rw e (raising-Agrees (accepted operation model_id usage) db _ _ (λ texts. refl))
  ],
)
