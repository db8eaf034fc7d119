-- ===== src/Evaluation/Metrics/Grouping.antt =====
-- Rows grouped by their question types.
use ragbench_kr_implementati.Prelude.{
  ℕ, ◌+◌, ◌≡◌, refl, ap, sym, ◌∙◌, Option, none, some, ◌||◌, All, String, List, [], ◌∷◌, ◌++◌, map,
  sum_of-append, sum_of, arith, Bool-cases, inl, inr, str_eq,
}
use ragbench_kr_implementati.Prelude.Sorting.{Preorder, sorted, sum_of-sorted, All-sorted}
use ragbench_kr_implementati.Prelude.Assoc.{
  str_key, contains, lookup, put, HasDistinctKeys, put-HasDistinctKeys,
}
use ragbench_kr_implementati.Prelude.Lookup.{
  contains-put, contains-sorted, All-snoc, AllEntries, put-AllEntries, lookup-AllEntries,
}
use ragbench_kr_implementati.Prelude.Once.{IsOnceEach, keys-IsOnceEach, sorted_keys-IsOnceEach}
use ragbench_kr_implementati.Evaluation.Metrics.{RetrievalMetric, rows_at, group_rows}

-- A dict entry that gains a row adds the row's share to the total.
total-put :
    {F : Type 0} (share : RetrievalMetric F → ℕ) (name : String) (row : RetrievalMetric F)
    (grouped : List (String × List (RetrievalMetric F))) (gained : List (RetrievalMetric F))
    → rows_at (lookup name grouped) ++ row ∷ [] ≡ gained
    → sum_of (λ group. sum_of share group.1) (put name gained grouped)
      ≡ sum_of (λ group. sum_of share group.1) grouped + share row
unfolding put lookup
total-put share name row [] gained e = omega (arith, ap (sum_of share) e)
total-put share name row ((other, rows) ∷ grouped) gained e =
    elim (Bool-cases (str_eq other name)) [
      | inl here ↦
          let e' : rows ++ row ∷ [] ≡ gained = rw here at e in
          rw here (omega (arith, ap (sum_of share) e', sum_of-append share rows (row ∷ [])))
      | inr there ↦
          rw there (omega (arith, total-put share name row grouped gained (rw there at e)))
    ]

pub total-group_rows :
    {F : Type 0} (share : RetrievalMetric F → ℕ)
    (grouped : List (String × List (RetrievalMetric F))) (rows : List (RetrievalMetric F))
    → sum_of (λ group. sum_of share group.1) (group_rows grouped rows)
      ≡ sum_of (λ group. sum_of share group.1) grouped + sum_of share rows
unfolding group_rows
total-group_rows share grouped [] = omega arith
total-group_rows share grouped (row ∷ rows) =
    let next =
      put row.question_type (rows_at (lookup row.question_type grouped) ++ row ∷ []) grouped in
    omega (
      arith,
      total-put share row.question_type row grouped _ refl,
      total-group_rows share next rows,
    )

types_of : {F : Type 0} → List (RetrievalMetric F) → List String
types_of rows = map (λ row. row.question_type) rows

keys_of : {F : Type 0} → List (String × List (RetrievalMetric F)) → List String
keys_of grouped = map (λ group. group.0) grouped

-- The groups have the types of the rows, each once, and rows of their type.
contains-group_rows :
    {F : Type 0} (name : String) (grouped : List (String × List (RetrievalMetric F)))
    (rows : List (RetrievalMetric F))
    → contains name (keys_of (group_rows grouped rows))
      ≡ (contains name (keys_of grouped) || contains name (types_of rows))
unfolding group_rows contains keys_of types_of
contains-group_rows name grouped [] = ground arith
contains-group_rows name grouped (row ∷ rows) =
    let gained = rows_at (lookup row.question_type grouped) ++ row ∷ [] in
    ground (
      arith,
      contains-group_rows name (put row.question_type gained grouped) rows,
      contains-put row.question_type name gained grouped,
    )

group_rows-HasDistinctKeys :
    {F : Type 0} (grouped : List (String × List (RetrievalMetric F)))
    (rows : List (RetrievalMetric F))
    → HasDistinctKeys grouped
    → HasDistinctKeys (group_rows grouped rows)
unfolding group_rows
group_rows-HasDistinctKeys grouped [] h = h
group_rows-HasDistinctKeys grouped (row ∷ rows) h =
    group_rows-HasDistinctKeys
      (put row.question_type (rows_at (lookup row.question_type grouped) ++ row ∷ []) grouped) rows
      (put-HasDistinctKeys row.question_type _ grouped h)

module _ {F : Type 0} where
  abbrev pub AreTyped : String → List (RetrievalMetric F) → Type 0
  AreTyped name rows = All (λ row. row.question_type ≡ name) rows

  rows_at-AreTyped :
      (name : String) (grouped : List (String × List (RetrievalMetric F)))
      (found : Option (List (RetrievalMetric F)))
      → AllEntries AreTyped grouped
      → lookup name grouped ≡ found
      → AreTyped name (rows_at found)
  rows_at-AreTyped name grouped none h e = tt
  rows_at-AreTyped name grouped (some rows) h e = lookup-AllEntries AreTyped name rows grouped h e

  group_rows-AreTyped :
      (grouped : List (String × List (RetrievalMetric F))) (rows : List (RetrievalMetric F))
      → AllEntries AreTyped grouped
      → AllEntries AreTyped (group_rows grouped rows)
  unfolding group_rows
  group_rows-AreTyped grouped [] h = h
  group_rows-AreTyped grouped (row ∷ rows) h =
      let name = row.question_type in
      let before = rows_at (lookup name grouped) in
      group_rows-AreTyped (put name (before ++ row ∷ []) grouped) rows (
        put-AllEntries AreTyped name (before ++ row ∷ []) grouped
          (All-snoc (λ r. r.question_type ≡ name) before row
            (rows_at-AreTyped name grouped _ h refl) refl)
          h)

  -- Groups of all the rows, by their types.
  abbrev pub AreGroups :
      List (RetrievalMetric F) → List (String × List (RetrievalMetric F)) → Type 0
  AreGroups rows groups =
      IsOnceEach (map (λ row. row.question_type) rows) (map (λ group. group.0) groups)
      × AllEntries AreTyped groups
      × ((share : RetrievalMetric F → ℕ)
          → sum_of (λ group. sum_of share group.1) groups ≡ sum_of share rows)

  pub sorted-AreGroups :
      (order : Preorder (RetrievalMetric F))
      (group_order : Preorder (String × List (RetrievalMetric F))) (rows : List (RetrievalMetric F))
      → AreGroups (sorted order rows) (sorted group_order (group_rows [] rows))
  unfolding contains keys_of types_of
  sorted-AreGroups order group_order rows = (
    sorted_keys-IsOnceEach group_order (λ group. group.0) (keys_of (group_rows [] rows)) _
        (group_rows [] rows)
        (λ name.
          contains-group_rows name [] rows
          ∙ sym (contains-sorted order (λ row. row.question_type) name rows))
        (keys-IsOnceEach (group_rows [] rows) (group_rows-HasDistinctKeys [] rows tt)),
    All-sorted group_order (λ group. AreTyped group.0 group.1) (group_rows [] rows)
        (group_rows-AreTyped [] rows tt),
    λ share.
        sum_of-sorted group_order (λ group. sum_of share group.1) (group_rows [] rows)
        ∙ (omega (arith, total-group_rows share [] rows))
        ∙ sym (sum_of-sorted order share rows),
  )
