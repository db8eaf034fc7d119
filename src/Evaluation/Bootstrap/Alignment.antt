-- ===== src/Evaluation/Bootstrap/Alignment.antt =====
-- Each aligned observation pairs a row of either system.
use mathlib.Core.Path.{subst, ap₂}
use mathlib.Core.List.{Mem}
use ragbench_kr_implementati.Prelude.{
  ◌≡◌, refl, ap, sym, ◌∙◌, Bool, true, false, not, not-false, ◌||◌, Option, none, some, String,
  List, [], ◌∷◌, map, All, AllPairs, arith, eq_iff,
}
use ragbench_kr_implementati.Prelude.Float.{Float}
use ragbench_kr_implementati.Prelude.Text.{is_blank, str_leb}
use ragbench_kr_implementati.Prelude.Result.{ok, raise_if-eq-ok, >>=-eq-ok, ok-injective}
use ragbench_kr_implementati.Prelude.Sorting.{
  ascending_str, sorted, sorted-IsSorted, IsSorted-AllPairs,
}
use ragbench_kr_implementati.Prelude.Assoc.{
  str_key, distinct, contains, lookup, put, same_keys, same_keys-contains, HasDistinctKeys,
  put-HasDistinctKeys,
}
use ragbench_kr_implementati.Prelude.Lookup.{
  All-of_Mem, contains-put, IsIndexed, put-IsIndexed, lookup-IsIndexed,
}
use ragbench_kr_implementati.Prelude.Once.{IsOnceEach, keys-IsOnceEach, sorted-IsOnceEach}
use ragbench_kr_implementati.Evaluation.Bootstrap.{
  PairedObservation, RawRow, blank_cluster, same_cluster, index_rows, new_observation, align_row,
  align_all, align_paired_observations,
}

same_cluster-eq : (a b : Option String) → same_cluster a b ≡ true → a ≡ b
same_cluster-eq none none h = refl
same_cluster-eq none (some b) h = absurd (cc)
same_cluster-eq (some a) none h = absurd (cc)
same_cluster-eq (some a) (some b) h = ap some ((eq_iff a b).0 h)

both_distinct : (a b : Bool) → (not a || not b) ≡ false → (a ≡ true) × (b ≡ true)
both_distinct a b h = ground arith

abbrev id_of : {F : Type 0} → RawRow F → String
id_of row = row.row_id

index_rows-IsIndexed :
    {F : Type 0} (P : RawRow F → Type 0) (by_id : List (String × RawRow F)) (rows : List (RawRow F))
    → All P rows
    → IsIndexed id_of P by_id
    → IsIndexed id_of P (index_rows by_id rows)
unfolding index_rows
index_rows-IsIndexed P by_id [] h k = k
index_rows-IsIndexed P by_id (row ∷ rows) h k =
    index_rows-IsIndexed P (put row.row_id row by_id) rows h.1
      (put-IsIndexed id_of P row by_id h.0 k)

-- The index has the ids of the rows, each once.
contains-index_rows :
    {F : Type 0} (id : String) (by_id : List (String × RawRow F)) (rows : List (RawRow F))
    → contains id (map (λ e. e.0) (index_rows by_id rows))
      ≡ (contains id (map (λ e. e.0) by_id) || contains id (map (λ row. row.row_id) rows))
unfolding index_rows contains
contains-index_rows id by_id [] = ground arith
contains-index_rows id by_id (row ∷ rows) = ground (
  arith,
  contains-index_rows id (put row.row_id row by_id) rows,
  contains-put row.row_id id row by_id,
)

index_rows-HasDistinctKeys :
    {F : Type 0} (by_id : List (String × RawRow F)) (rows : List (RawRow F))
    → HasDistinctKeys by_id
    → HasDistinctKeys (index_rows by_id rows)
unfolding index_rows
index_rows-HasDistinctKeys by_id [] h = h
index_rows-HasDistinctKeys by_id (row ∷ rows) h =
    index_rows-HasDistinctKeys (put row.row_id row by_id) rows
      (put-HasDistinctKeys row.row_id row by_id h)

keys-index_rows :
    {F : Type 0} (id : String) (rows : List (RawRow F))
    → contains id (map (λ e. e.0) (index_rows [] rows)) ≡ contains id (map (λ row. row.row_id) rows)
unfolding contains
keys-index_rows id rows = contains-index_rows id [] rows

abbrev ids_of : {F : Type 0} → List (RawRow F) → List String
ids_of rows = map (λ row. row.row_id) rows

module _ (float : Float) where
  open float use {F, is_finite}

  -- An observation that pairs a row of one property with a row of another, of one cluster.
  abbrev pub IsAligned : (RawRow F → Type 0) → (RawRow F → Type 0) → PairedObservation F → Type 0
  IsAligned P Q observation =
      (left : RawRow F) × (right : RawRow F) × (P left × (left.row_id ≡ observation.observation_id))
      × (Q right × (right.row_id ≡ observation.observation_id))
      × (left.cluster ≡ right.cluster)
      × (observation.left ≡ left.score)
      × (observation.right ≡ right.score)
      × (observation.document_cluster_id ≡ left.cluster)

  new_observation_lem :
      (id : String) (left right : F) (cluster : Option String) {out : PairedObservation F}
      → new_observation float id left right cluster ≡ ok out
      → (record { observation_id = id; left = left; right = right; document_cluster_id = cluster })
        ≡ out
  unfolding new_observation
  new_observation_lem id left right cluster e =
      let (_, e₁) = raise_if-eq-ok (is_blank id) _ _ e in
      let (_, e₂) = raise_if-eq-ok (not (is_finite left) || not (is_finite right)) _ _ e₁ in
      ok-injective (raise_if-eq-ok (blank_cluster cluster) _ _ e₂).1

  align_row_lem :
      (P Q : RawRow F → Type 0) (id : String) (l r : Option (RawRow F)) (out : PairedObservation F)
      (left_by_id right_by_id : List (String × RawRow F))
      → IsIndexed id_of P left_by_id
      → IsIndexed id_of Q right_by_id
      → lookup id left_by_id ≡ l
      → lookup id right_by_id ≡ r
      → align_row float id l r ≡ ok out
      → IsAligned P Q out × (out.observation_id ≡ id)
  unfolding align_row
  align_row_lem P Q id none r out lm rm hp hq el er e = absurd (cc)
  align_row_lem P Q id (some left) none out lm rm hp hq el er e = absurd (cc)
  align_row_lem P Q id (some left) (some right) out lm rm hp hq el er e =
      let (same, e₁) = raise_if-eq-ok (not (same_cluster left.cluster right.cluster)) _ _ e in
      subst (λ (o : PairedObservation F). IsAligned P Q o × (o.observation_id ≡ id))
        (new_observation_lem id left.score right.score left.cluster e₁)
        (
          (
            left,
            right,
            lookup-IsIndexed id_of P id left lm hp el,
            lookup-IsIndexed id_of Q id right rm hq er,
            same_cluster-eq left.cluster right.cluster (not-false _ same),
            refl,
            refl,
            refl,
          ),
          refl,
        )

  align_all_lem :
      (P Q : RawRow F → Type 0) (left_by_id right_by_id : List (String × RawRow F))
      (ids : List String) (out : List (PairedObservation F))
      → IsIndexed id_of P left_by_id
      → IsIndexed id_of Q right_by_id
      → align_all float left_by_id right_by_id ids ≡ ok out
      → All (IsAligned P Q) out × (map (λ o. o.observation_id) out ≡ ids)
  unfolding align_all
  align_all_lem P Q lm rm [] out hp hq e =
      subst
        (λ (os : List (PairedObservation F)).
          All (IsAligned P Q) os × (map (λ o. o.observation_id) os ≡ []))
        (ok-injective e) (tt, refl)
  align_all_lem P Q lm rm (id ∷ ids) out hp hq e =
      let (first, row, e₁) = >>=-eq-ok (align_row float id (lookup id lm) (lookup id rm)) _ e in
      let (rest, rows, e₂) = >>=-eq-ok (align_all float lm rm ids) _ e₁ in
      let (aligned, same) = align_row_lem P Q id _ _ first lm rm hp hq refl refl row in
      let (all_aligned, same_ids) = align_all_lem P Q lm rm ids rest hp hq rows in
      subst
        (λ (os : List (PairedObservation F)).
          All (IsAligned P Q) os × (map (λ o. o.observation_id) os ≡ id ∷ ids))
        (ok-injective e₂)
        ((aligned, all_aligned), ap₂ (λ (x : String) (xs : List String). x ∷ xs) same same_ids)

  -- When the alignment returns, the rows of the two systems have the same ids, each once on either
  -- side; there is one observation for each id of a row and no other, in the order of the ids; and each pairs the scores of a
  -- row of the left system and one of the right with that id, of the same document cluster.
  pub align_paired_observations_lem :
      (left right : List (RawRow F)) (out : List (PairedObservation F))
      → align_paired_observations float left right ≡ ok out
      → let ids = map (λ o. o.observation_id) out in
        ((distinct (ids_of left) ≡ true) × (distinct (ids_of right) ≡ true))
        × ((id : String) → contains id (ids_of left) ≡ contains id (ids_of right))
        × IsOnceEach (ids_of left) ids
        × AllPairs (λ a b. str_leb a b ≡ true) ids
        × All (IsAligned (λ row. Mem row left) (λ row. Mem row right)) out
  unfolding align_paired_observations
  align_paired_observations_lem left right out returned =
      let lm = index_rows [] left in
      let rm = index_rows [] right in
      let left_ids = map (λ (e : String × RawRow F). e.0) lm in
      let right_ids = map (λ (e : String × RawRow F). e.0) rm in
      let P = λ (row : RawRow F). Mem row left in
      let Q = λ (row : RawRow F). Mem row right in
      let (once, e₁) =
        raise_if-eq-ok
          (not (distinct (map (λ (row : RawRow F). row.row_id) left))
            || not (distinct (map (λ (row : RawRow F). row.row_id) right)))
          _ _ returned in
      let (same, e₂) = raise_if-eq-ok (not (same_keys left_ids right_ids)) _ _ e₁ in
      let (aligned, same_ids) =
        align_all_lem P Q lm rm (sorted ascending_str left_ids) out
          (index_rows-IsIndexed P [] left (All-of_Mem left (λ row m. m)) tt)
          (index_rows-IsIndexed Q [] right (All-of_Mem right (λ row m. m)) tt) e₂ in
      (
        both_distinct _ _ once,
        λ id.
            sym (keys-index_rows id left)
            ∙ same_keys-contains left_ids right_ids (not-false _ same) id
            ∙ keys-index_rows id right,
        subst (IsOnceEach (ids_of left)) (sym same_ids) (
            sorted-IsOnceEach ascending_str left_ids (ids_of left) left_ids
              (λ id. keys-index_rows id left)
              (keys-IsOnceEach lm (index_rows-HasDistinctKeys [] left tt))),
        subst (AllPairs (λ a b. str_leb a b ≡ true)) (sym same_ids) (
            IsSorted-AllPairs ascending_str (sorted ascending_str left_ids)
              (sorted-IsSorted ascending_str left_ids)),
        aligned,
      )
