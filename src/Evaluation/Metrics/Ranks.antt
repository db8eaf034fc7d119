-- ===== src/Evaluation/Metrics/Ranks.antt =====
-- The hit and the reciprocal rank of one question.
use mathlib.Core.Path.{subst}
use ragbench_kr_implementati.Prelude.{
  ℕ, zero, suc, ◌+◌, ◌≡◌, ◌≤◌, ◌<◌, ◌⊎◌, refl, some, true, String, List, [], ◌∷◌, take, arith,
  Bool-cases, inl, inr, ltb, ltb→lt,
}
use ragbench_kr_implementati.Prelude.Int.{pos}
use ragbench_kr_implementati.Prelude.Float.{Float}
use ragbench_kr_implementati.Prelude.Result.{ok}
use ragbench_kr_implementati.Prelude.Assoc.{str_key, contains, to_set}
use ragbench_kr_implementati.Evaluation.Metrics.{
  RetrievalCase, RetrievalMetric, count_in, reciprocal_rank, score_case, evaluate_retrieval,
}
use ragbench_kr_implementati.Evaluation.Metrics.Bounds.{evaluated}

module _ (float : Float) where
  open float use {
    F, zero_float, one_float, ratio, order, ratio_zero, ratio_mono_left, ratio_mono_right,
  }

  -- A member within the next `k` ids has a rank of at most `n + k`.
  reciprocal_rank-ge :
      (evidence : List String) (n k m : ℕ) (ids : List String)
      → n + k ≤ suc m
      → 0 < count_in evidence (take k ids)
      → order.le (ratio 1 (suc m)) (reciprocal_rank float evidence (suc n) ids) ≡ true
  unfolding count_in reciprocal_rank
  reciprocal_rank-ge evidence n zero m ids fits h = absurd (omega arith)
  reciprocal_rank-ge evidence n (suc k) m [] fits h = absurd (omega arith)
  reciprocal_rank-ge evidence n (suc k) m (id ∷ ids) fits h =
      elim (Bool-cases (contains id evidence)) [
        | inl e ↦ rw e (ratio_mono_right 1 n m (omega arith))
        | inr e ↦ rw e (reciprocal_rank-ge evidence (suc n) k m ids (omega arith) (rw e at h))
      ]

  reciprocal_rank-le :
      (evidence : List String) (n m : ℕ) (ids : List String)
      → m ≤ n
      → order.le (reciprocal_rank float evidence (suc n) ids) (ratio 1 (suc m)) ≡ true
  unfolding reciprocal_rank
  reciprocal_rank-le evidence n m [] fits =
      rw (← ratio_zero m) (ratio_mono_left 0 1 m (omega arith))
  reciprocal_rank-le evidence n m (id ∷ ids) fits = elim (Bool-cases (contains id evidence)) [
    | inl e ↦ rw e (ratio_mono_right 1 m n fits)
    | inr e ↦ rw e (reciprocal_rank-le evidence (suc n) m ids (omega arith))
  ]

  -- With no member among the next `k` ids, any rank is above `n + k`.
  reciprocal_rank-after :
      (evidence : List String) (n k m : ℕ) (ids : List String)
      → m ≤ n + k
      → count_in evidence (take k ids) ≡ 0
      → order.le (reciprocal_rank float evidence (suc n) ids) (ratio 1 (suc m)) ≡ true
  unfolding count_in reciprocal_rank
  reciprocal_rank-after evidence n zero m ids fits h =
      reciprocal_rank-le evidence n m ids (omega arith)
  reciprocal_rank-after evidence n (suc k) m [] fits h =
      rw (← ratio_zero m) (ratio_mono_left 0 1 m (omega arith))
  reciprocal_rank-after evidence n (suc k) m (id ∷ ids) fits h =
      elim (Bool-cases (contains id evidence)) [
        | inl e ↦ absurd (let found = rw e at h in omega arith)
        | inr e ↦ rw e (reciprocal_rank-after evidence (suc n) k m ids (omega arith) (rw e at h))
      ]

  abbrev pub HitAndRank : ℕ → RetrievalMetric F → Type 0
  HitAndRank k row =
      (mrr : F) × (row.mrr ≡ some mrr)
      × (((0 < row.retrieved_evidence_count)
            × (row.hit_at_k ≡ some one_float)
            × (order.le (ratio 1 (suc k)) mrr ≡ true))
          ⊎ ((row.retrieved_evidence_count ≡ 0)
              × (row.hit_at_k ≡ some zero_float)
              × (order.le mrr (ratio 1 (suc (suc k))) ≡ true)))

  score_case-HitAndRank :
      (case : RetrievalCase F) (k : ℕ) (evidence : List String)
      → 0 < (score_case float case (pos (suc k)) evidence).evidence_count
      → HitAndRank k (score_case float case (pos (suc k)) evidence)
  unfolding score_case
  score_case-HitAndRank case k [] h = absurd (omega arith)
  score_case-HitAndRank case k (id ∷ ids) h =
      let evidence = id ∷ ids in
      let found = count_in evidence (take (suc k) case.ranked_chunk_ids) in
      (
        reciprocal_rank float evidence 1 case.ranked_chunk_ids,
        refl,
        elim (Bool-cases (ltb 0 found)) [
          | inl e ↦
              let some_found = ltb→lt 0 found e in
              inl (
                some_found,
                rw e,
                reciprocal_rank-ge evidence 0 (suc k) k case.ranked_chunk_ids (omega arith)
                    some_found,
              )
          | inr e ↦
              let none_found : found ≡ 0 = ground arith in
              inr (
                none_found,
                rw e,
                reciprocal_rank-after evidence 0 (suc k) (suc k) case.ranked_chunk_ids (omega arith)
                    none_found,
              )
        ],
      )

  -- The hit and the reciprocal rank of a question with evidence, by what its top `k + 1` ids hold: if
  -- there is evidence among them, the hit is 1.0 and the reciprocal rank at least 1 / (k + 1); if
  -- there is none, the hit is 0.0 and the reciprocal rank at most 1 / (k + 2).
  pub hit_and_rank :
      (case : RetrievalCase F) (k : ℕ) (row : RetrievalMetric F)
      → evaluate_retrieval float case (pos (suc k)) ≡ ok row
      → 0 < row.evidence_count
      → HitAndRank k row
  hit_and_rank case k row returned =
      subst (λ (r : RetrievalMetric F). 0 < r.evidence_count → HitAndRank k r)
        (evaluated float case (pos (suc k)) returned)
        (score_case-HitAndRank case k (to_set case.evidence_chunk_ids))
