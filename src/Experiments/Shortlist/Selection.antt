-- ===== src/Experiments/Shortlist/Selection.antt =====
-- What a shortlist is.
use mathlib.Core.List.{Mem}
use ragbench_kr_implementati.Prelude.{
  ℕ, ◌+◌, ◌/◌, ◌≡◌, ◌≢◌, Bool, true, false, not, ◌==◌, String, List, map, length, All, AllPairs,
  All-filter_rows,
}
use ragbench_kr_implementati.Prelude.Int.{ℤ, pos, pos_part, leb_ℤ, eqb_ℤ}
use ragbench_kr_implementati.Prelude.Float.{Float}
use ragbench_kr_implementati.Prelude.Result.{ok, raise_if-eq-ok, >>=-eq-ok}
use ragbench_kr_implementati.Prelude.Sorting.{IsSorted-AllPairs}
use ragbench_kr_implementati.Prelude.Assoc.{str_key, int_key, pair_key, distinct, to_set}
use ragbench_kr_implementati.Prelude.Lookup.{All-of_Mem}
use ragbench_kr_implementati.Experiments.{RetrievalExperimentConfig}
use ragbench_kr_implementati.Experiments.Shortlist.{
  ScreeningOutcome, mode_of, retriever_of, family_of, cohort_of, quality_order, rank_families,
  pool_of, check_complete, select_ranked, select_retrieval_shortlist,
}
use ragbench_kr_implementati.Experiments.Shortlist.Diversity.{IsCapped, choose-Chosen}
use ragbench_kr_implementati.Experiments.Shortlist.Families.{rank_families_lem}

pool_of-All :
    (float : Float) (P : ScreeningOutcome float.F → Type 0) (complete : Bool)
    (outcomes : List (ScreeningOutcome float.F))
    → All P outcomes
    → All P (pool_of float complete outcomes)
unfolding pool_of
pool_of-All float P true outcomes h =
    All-filter_rows P (λ row. eqb_ℤ row.config.top_k (pos 5)) outcomes h
pool_of-All float P false outcomes h = h

module _ (float : Float) (semantic_hash : RetrievalExperimentConfig float.F → String) where
  open float use {F}

  -- `size` of the outcomes, of distinct families, in the order of quality, and no parse mode and no
  -- retriever with more than half of them, rounded up.
  abbrev pub IsShortlist : List (ScreeningOutcome F) → ℕ → List (ScreeningOutcome F) → Type 0
  IsShortlist outcomes size out =
      (length out ≡ size)
      × All (λ row. Mem row outcomes) out
      × AllPairs (λ a b. family_of a ≢ family_of b) out
      × AllPairs (λ a b. (quality_order float semantic_hash).le a b ≡ true) out
      × IsCapped mode_of ((size + 1) / 2) out
      × IsCapped retriever_of ((size + 1) / 2) out

  -- With the core diversity enforced, a shortlist that is returned has exactly `size` rows, all of
  -- them outcomes, in the order of the quality key; no two are of one family of parse mode, chunk
  -- strategy and retriever; and no parse mode and no retriever has more than half of them, rounded up.
  pub select_retrieval_shortlist-IsShortlist :
      (outcomes : List (ScreeningOutcome F)) (size : ℤ) (complete : Bool)
      (out : List (ScreeningOutcome F))
      → select_retrieval_shortlist float semantic_hash outcomes size true complete ≡ ok out
      → IsShortlist outcomes (pos_part size) out
  unfolding select_retrieval_shortlist select_ranked
  select_retrieval_shortlist-IsShortlist outcomes size complete out returned =
      let (_, e₁) = raise_if-eq-ok (leb_ℤ size (pos 0)) _ _ returned in
      let (_, e₂) =
        raise_if-eq-ok
          (not (distinct (map (λ (row : ScreeningOutcome F). semantic_hash row.config) outcomes))) _
          _ e₁ in
      let (_, _, e₃) = >>=-eq-ok (check_complete float complete outcomes) _ e₂ in
      let (_, e₄) = raise_if-eq-ok (not (length (to_set (map cohort_of outcomes)) == 1)) _ _ e₃ in
      let pool = pool_of float complete outcomes in
      let P = λ (row : ScreeningOutcome F). Mem row outcomes in
      let (members, apart, ordered) =
        rank_families_lem float semantic_hash P pool
          (pool_of-All float P complete outcomes (All-of_Mem outcomes (λ row m. m))) in
      let ranked = rank_families float semantic_hash pool in
      let c = choose-Chosen (pos_part size) ((pos_part size + 1) / 2) ranked out e₄ in
      (
        c.full,
        c.members P tt members,
        c.in_order (λ a b. family_of a ≢ family_of b) apart,
        c.in_order (λ a b. (quality_order float semantic_hash).le a b ≡ true)
            (IsSorted-AllPairs (quality_order float semantic_hash) ranked ordered),
        c.modes,
        c.retrievers,
      )
