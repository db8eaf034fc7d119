-- ===== src/Experiments/Shortlist/Families.antt =====
-- One row, the best, for each family.
use mathlib.Core.Path.{subst}
use ragbench_kr_implementati.Prelude.{
  ◌≡◌, ◌≢◌, refl, sym, ◌∙◌, Option, none, some, String, List, [], ◌∷◌, map, All, AllPairs,
}
use ragbench_kr_implementati.Prelude.Float.{Float}
use ragbench_kr_implementati.Prelude.Sorting.{
  sorted, IsSorted, sorted-IsSorted, All-sorted, sorted-AllPairs,
}
use ragbench_kr_implementati.Prelude.Assoc.{
  str_key, pair_key, lookup, HasDistinctKeys, put-HasDistinctKeys,
}
use ragbench_kr_implementati.Prelude.Lookup.{put_absent, All-snoc}
use ragbench_kr_implementati.Experiments.{RetrievalExperimentConfig}
use ragbench_kr_implementati.Experiments.Shortlist.{
  ScreeningOutcome, Family, family_of, set_default, best_of_families, quality_order, rank_families,
}

module _ {F : Type 0} where
  abbrev IsEntry : (ScreeningOutcome F → Type 0) → Family × ScreeningOutcome F → Type 0
  IsEntry P entry = (entry.0 ≡ family_of entry.1) × P entry.1

  -- A dict of families that holds rows of a property.
  abbrev AreFamilies : (ScreeningOutcome F → Type 0) → List (Family × ScreeningOutcome F) → Type 0
  AreFamilies P best = HasDistinctKeys best × All (IsEntry P) best

  set_default-AreFamilies :
      (P : ScreeningOutcome F → Type 0) (row : ScreeningOutcome F)
      (best : List (Family × ScreeningOutcome F)) (found : Option (ScreeningOutcome F))
      → lookup (family_of row) best ≡ found
      → P row
      → AreFamilies P best
      → AreFamilies P (set_default row best found)
  unfolding set_default
  set_default-AreFamilies P row best (some present) e p h = h
  set_default-AreFamilies P row best none e p h = (
    put-HasDistinctKeys (family_of row) row best h.0,
    subst (All (IsEntry P)) (sym (put_absent (family_of row) row best e))
        (All-snoc (IsEntry P) best (family_of row, row) h.1 (refl, p)),
  )

  best_of_families-AreFamilies :
      (P : ScreeningOutcome F → Type 0) (best : List (Family × ScreeningOutcome F))
      (rows : List (ScreeningOutcome F))
      → All P rows
      → AreFamilies P best
      → AreFamilies P (best_of_families best rows)
  unfolding best_of_families
  best_of_families-AreFamilies P best [] all_rows h = h
  best_of_families-AreFamilies P best (row ∷ rows) all_rows h =
      best_of_families-AreFamilies P (set_default row best (lookup (family_of row) best)) rows
        all_rows.1 (set_default-AreFamilies P row best _ refl all_rows.0 h)

  values_apart :
      (P : ScreeningOutcome F → Type 0) (key : Family) (best : List (Family × ScreeningOutcome F))
      → All (λ entry. key ≢ entry.0) best
      → All (IsEntry P) best
      → All (λ row. key ≢ family_of row) (map (λ entry. entry.1) best)
  values_apart P key [] apart h = tt
  values_apart P key (entry ∷ best) apart h =
      ((λ same. apart.0 (same ∙ sym h.0.0)), values_apart P key best apart.1 h.1)

  values_lem :
      (P : ScreeningOutcome F → Type 0) (best : List (Family × ScreeningOutcome F))
      → AreFamilies P best
      → AllPairs (λ a b. family_of a ≢ family_of b) (map (λ entry. entry.1) best)
        × All P (map (λ entry. entry.1) best)
  values_lem P [] h = (tt, tt)
  values_lem P (entry ∷ best) (apart, all_entries) =
      let (rest_apart, rest_all) = values_lem P best (apart.1, all_entries.1) in
      (
        (
          subst (λ (key : Family). All (λ row. key ≢ family_of row) (map (λ e. e.1) best))
              all_entries.0.0 (values_apart P entry.0 best apart.0 all_entries.1),
          rest_apart,
        ),
        (all_entries.0.1, rest_all),
      )

module _ (float : Float) (semantic_hash : RetrievalExperimentConfig float.F → String) where
  open float use {F}

  -- The ranked rows are rows of the pool, of distinct families, in the order of quality.
  pub rank_families_lem :
      (P : ScreeningOutcome F → Type 0) (pool : List (ScreeningOutcome F))
      → All P pool
      → All P (rank_families float semantic_hash pool)
        × AllPairs (λ a b. family_of a ≢ family_of b) (rank_families float semantic_hash pool)
        × IsSorted (quality_order float semantic_hash) (rank_families float semantic_hash pool)
  unfolding rank_families
  rank_families_lem P pool h =
      let order = quality_order float semantic_hash in
      let best = best_of_families [] (sorted order pool) in
      let (apart, members) = values_lem P best (
        best_of_families-AreFamilies P [] (sorted order pool) (All-sorted order P pool h)
          (tt, tt)) in
      (
        All-sorted order P (map (λ entry. entry.1) best) members,
        sorted-AllPairs order (λ a b different same. different (sym same))
            (map (λ entry. entry.1) best) apart,
        sorted-IsSorted order (map (λ entry. entry.1) best),
      )
