-- ===== src/Evaluation/Metrics/Bounds.antt =====
-- What the metrics of one question can be.
use mathlib.Core.Path.{subst, subst₂}
use ragbench_kr_implementati.Prelude.{
  ℕ, suc, ◌≡◌, ◌≤◌, refl, ap, sym, ◌∙◌, Option, none, some, true, not, not-false, String, List, [],
  ◌∷◌, length, take, arith,
}
use ragbench_kr_implementati.Prelude.Int.{ℤ, pos, pos_part, leb_ℤ, ◌≤ℤ◌}
use ragbench_kr_implementati.Prelude.Float.{Float}
use ragbench_kr_implementati.Prelude.Result.{ok, raise_if-eq-ok, ok-injective}
use ragbench_kr_implementati.Prelude.Assoc.{str_key, distinct, to_set}
use ragbench_kr_implementati.Evaluation.Metrics.{
  RetrievalCase, RetrievalMetric, count_in, score_case, evaluate_retrieval, new_case,
}
use ragbench_kr_implementati.Evaluation.Metrics.Counting.{
  count_in-le-length, distinct-take, count_in-take_le, count_in-take_mono,
}

pos_part_mono : (j k : ℤ) → j ≤ℤ k → pos_part j ≤ pos_part k
pos_part_mono j k h = ground arith

module _ (float : Float) where
  open float use {
    F, zero_float, one_float, ratio, order, is_finite, ratio_zero, ratio_self, ratio_mono_left,
    ratio_mono_right,
  }

  abbrev retrieved : RetrievalCase F → ℤ → ℕ
  retrieved case k =
      count_in (to_set case.evidence_chunk_ids) (take (pos_part k) case.ranked_chunk_ids)

  -- The row of a call that returned.
  pub evaluated :
      (case : RetrievalCase F) (k : ℤ) {row : RetrievalMetric F}
      → evaluate_retrieval float case k ≡ ok row
      → score_case float case k (to_set case.evidence_chunk_ids) ≡ row
  unfolding evaluate_retrieval
  evaluated case k returned = ok-injective (raise_if-eq-ok (leb_ℤ k (pos 0)) _ _ returned).1

  -- A quotient of counts lies between 0 and 1.
  ratio_bounds :
      (n d : ℕ)
      → n ≤ suc d
      → (order.le zero_float (ratio n (suc d)) ≡ true)
        × (order.le (ratio n (suc d)) one_float ≡ true)
  ratio_bounds n d h = (
    rw (← ratio_zero d) (ratio_mono_left 0 n d (omega arith)),
    rw (← ratio_self d) (ratio_mono_left n (suc d) d h),
  )

  abbrev pub IsFraction : Option F → Type 0
  IsFraction none = Unit
  IsFraction (some value) = (order.le zero_float value ≡ true) × (order.le value one_float ≡ true)

  -- Of a case whose ranked ids are distinct: the evidence that is retrieved is at most the evidence
  -- that there is, and at most k; and the recall is a fraction.
  score_case_bounds :
      (case : RetrievalCase F) (k : ℤ) (evidence : List String)
      → distinct case.ranked_chunk_ids ≡ true
      → let row = score_case float case k evidence in
        (row.retrieved_evidence_count ≤ row.evidence_count)
        × (row.retrieved_evidence_count ≤ pos_part k)
        × IsFraction row.evidence_recall_at_k
  unfolding score_case
  score_case_bounds case k [] d = (omega arith, omega arith, tt)
  score_case_bounds case k (id ∷ ids) d =
      let top = take (pos_part k) case.ranked_chunk_ids in
      let most =
        count_in-le-length (id ∷ ids) top (distinct-take (pos_part k) case.ranked_chunk_ids d) in
      (
        most,
        count_in-take_le (id ∷ ids) (pos_part k) case.ranked_chunk_ids,
        ratio_bounds (count_in (id ∷ ids) top) (length ids) most,
      )

  score_case_mono :
      (case : RetrievalCase F) (j k : ℤ) (evidence : List String)
      → j ≤ℤ k
      → let row = score_case float case j evidence in
        let row' = score_case float case k evidence in
        (row.evidence_count ≡ row'.evidence_count)
        × (row.mrr ≡ row'.mrr)
        × (row.retrieved_evidence_count ≤ row'.retrieved_evidence_count)
  unfolding score_case
  score_case_mono case j k [] fits = (refl, refl, omega arith)
  score_case_mono case j k (id ∷ ids) fits = (
    refl,
    refl,
    count_in-take_mono (id ∷ ids) (pos_part j) (pos_part k) case.ranked_chunk_ids
        (pos_part_mono j k fits),
  )

  -- The ranks of a case that passed its checks are distinct.
  new_case-distinct :
      (question_id question_type : String) (ranked evidence : List String) (latency : F)
      {case : RetrievalCase F}
      → new_case float question_id question_type ranked evidence latency ≡ ok case
      → distinct case.ranked_chunk_ids ≡ true
  unfolding new_case
  new_case-distinct question_id question_type ranked evidence latency built =
      let (_, a) = raise_if-eq-ok _ _ _ built in
      let (_, b) = raise_if-eq-ok (not (is_finite latency)) _ _ a in
      let (_, c) = raise_if-eq-ok _ _ _ b in
      let (apart, d) = raise_if-eq-ok (not (distinct ranked)) _ _ c in
      let (_, last) = raise_if-eq-ok (not (distinct evidence)) _ _ d in
      ap (λ (case : RetrievalCase F). distinct case.ranked_chunk_ids) (sym (ok-injective last))
      ∙ not-false (distinct ranked) apart

  -- Of a case that passed its checks, a metric that is returned counts at most the evidence that
  -- there is and at most k of it, and its recall, where there is one, is between 0 and 1.
  pub evaluate_retrieval_bounds :
      (question_id question_type : String) (ranked evidence : List String) (latency : F)
      (case : RetrievalCase F) (k : ℤ) (row : RetrievalMetric F)
      → new_case float question_id question_type ranked evidence latency ≡ ok case
      → evaluate_retrieval float case k ≡ ok row
      → (row.retrieved_evidence_count ≤ row.evidence_count)
        × (row.retrieved_evidence_count ≤ pos_part k)
        × IsFraction row.evidence_recall_at_k
  evaluate_retrieval_bounds question_id question_type ranked evidence latency case k row built
        returned =
      subst
        (λ (r : RetrievalMetric F).
          (r.retrieved_evidence_count ≤ r.evidence_count)
          × (r.retrieved_evidence_count ≤ pos_part k)
          × IsFraction r.evidence_recall_at_k)
        (evaluated case k returned)
        (score_case_bounds case k _
          (new_case-distinct question_id question_type ranked evidence latency built))

  -- With a larger k a question keeps its evidence count and its reciprocal rank, and retrieves at
  -- least as much of its evidence.
  pub evaluate_retrieval_mono :
      (case : RetrievalCase F) (j k : ℤ) (row row' : RetrievalMetric F)
      → evaluate_retrieval float case j ≡ ok row
      → evaluate_retrieval float case k ≡ ok row'
      → j ≤ℤ k
      → (row.evidence_count ≡ row'.evidence_count)
        × (row.mrr ≡ row'.mrr)
        × (row.retrieved_evidence_count ≤ row'.retrieved_evidence_count)
  evaluate_retrieval_mono case j k row row' at_j at_k fits =
      subst₂
        (λ (r s : RetrievalMetric F).
          (r.evidence_count ≡ s.evidence_count)
          × (r.mrr ≡ s.mrr)
          × (r.retrieved_evidence_count ≤ s.retrieved_evidence_count))
        (evaluated case j at_j) (evaluated case k at_k)
        (score_case_mono case j k (to_set case.evidence_chunk_ids) fits)
