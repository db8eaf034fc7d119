-- ===== src/Evaluation/Metrics/Groups.antt =====
-- The questions of an evaluation are shared out among the question types, each once.
use mathlib.Core.Path.{subst, fun_ext}
use ragbench_kr_implementati.Prelude.{
  ℕ, suc, ◌+◌, ◌≡◌, ◌≤◌, refl, ap, sym, ◌∙◌, not, String, List, [], ◌∷◌, map, length, length-map,
  length-filter_rows, length-filter_rows_le, length-eq-sum_of, sum_of-map, sum_of, filter_rows,
  arith, if◌then◌else◌,
}
use ragbench_kr_implementati.Prelude.Int.{ℤ}
use ragbench_kr_implementati.Prelude.Float.{Float}
use ragbench_kr_implementati.Prelude.Result.{ok, raise_if-eq-ok, >>=-eq-ok, ok-injective}
use ragbench_kr_implementati.Prelude.Sorting.{by_key, ascending_str, sorted, sum_of-sorted}
use ragbench_kr_implementati.Prelude.Assoc.{str_key, distinct}
use ragbench_kr_implementati.Evaluation.Metrics.{
  RetrievalCase, RetrievalMetric, RetrievalAggregate, RetrievalEvaluation, is_scorable, group_rows,
  aggregate, aggregate_scored, evaluate_retrieval, evaluate_all, to_bootstrap, aggregate_retrieval,
}
use ragbench_kr_implementati.Evaluation.Metrics.Grouping.{
  AreGroups, total-group_rows, sorted-AreGroups,
}

-- 1 for a scorable row, 0 for another.
abbrev scorable_share : {F : Type 0} → RetrievalMetric F → ℕ
scorable_share row = if is_scorable row then 1 else 0

module _ (float : Float) where
  open float use {F}

  abbrev Counts : List (RetrievalMetric F) → RetrievalAggregate F → Type 0
  Counts rows result =
      (result.question_count ≡ sum_of (λ _. 1) rows)
      × (result.scorable_count ≡ sum_of scorable_share rows)
      × (result.scorable_count + result.no_evidence_count ≡ result.question_count)

  aggregate_scored-Counts :
      (rows scored_rows : List (RetrievalMetric F))
      → length rows ≡ sum_of (λ _. 1) rows
      → length scored_rows ≡ sum_of scorable_share rows
      → length scored_rows ≤ length rows
      → Counts rows (aggregate_scored float rows scored_rows)
  unfolding aggregate_scored
  aggregate_scored-Counts rows [] all_rows share fits = omega arith
  aggregate_scored-Counts rows (first ∷ rest) all_rows share fits = omega arith

  aggregate-Counts : (rows : List (RetrievalMetric F)) → Counts rows (aggregate float rows)
  unfolding aggregate
  aggregate-Counts rows =
      aggregate_scored-Counts rows (filter_rows is_scorable rows) (length-eq-sum_of rows)
        (length-filter_rows is_scorable rows) (length-filter_rows_le is_scorable rows)

  length-evaluate_all :
      (cases : List (RetrievalCase F)) (k : ℤ) (rows : List (RetrievalMetric F))
      → evaluate_all float cases k ≡ ok rows
      → length rows ≡ length cases
  unfolding evaluate_all
  length-evaluate_all [] k rows e = sym (ap length (ok-injective e))
  length-evaluate_all (case ∷ cases) k rows e =
      let (row, first, e₁) = >>=-eq-ok (evaluate_retrieval float case k) _ e in
      let (rest, others, e₂) = >>=-eq-ok (evaluate_all float cases k) _ e₁ in
      sym (ap length (ok-injective e₂)) ∙ ap suc (length-evaluate_all cases k rest others)

  -- What the aggregates of the groups come to.
  groups_total :
      (count : RetrievalAggregate F → ℕ) (share : RetrievalMetric F → ℕ)
      → ((rows : List (RetrievalMetric F)) → count (aggregate float rows) ≡ sum_of share rows)
      → (rows : List (RetrievalMetric F))
      → sum_of {A = String × RetrievalAggregate F}
          (λ group. count group.1)
          (map
            (λ group. (group.0, aggregate float group.1))
            (sorted (by_key (λ group. group.0) ascending_str) (group_rows [] rows)))
        ≡ sum_of share rows
  groups_total count share counts rows =
      sum_of-map (λ (group : String × RetrievalAggregate F). count group.1)
        (λ (group : String × List (RetrievalMetric F)). (group.0, aggregate float group.1))
        (sorted (by_key (λ group. group.0) ascending_str) (group_rows [] rows))
      ∙ ap
          (λ (f : String × List (RetrievalMetric F) → ℕ).
            sum_of f (sorted (by_key (λ group. group.0) ascending_str) (group_rows [] rows)))
          (fun_ext (λ (group : String × List (RetrievalMetric F)). counts group.1))
      ∙ sum_of-sorted
          (by_key (λ (group : String × List (RetrievalMetric F)). group.0) ascending_str)
          (λ group. sum_of share group.1) (group_rows [] rows)
      ∙ (omega (arith, total-group_rows share [] rows))

  abbrev pub IsPartition : List (RetrievalCase F) → RetrievalEvaluation F → Type 0
  IsPartition cases evaluation =
      (evaluation.overall.question_count ≡ length cases)
      × (evaluation.overall.scorable_count + evaluation.overall.no_evidence_count ≡ length cases)
      × (length evaluation.question_metrics ≡ length cases)
      × (length evaluation.bootstrap_inputs ≡ evaluation.overall.scorable_count)
      × (sum_of (λ entry. entry.1.question_count) evaluation.by_question_type ≡ length cases)
      × (sum_of (λ entry. entry.1.scorable_count) evaluation.by_question_type
          ≡ evaluation.overall.scorable_count)
      × (groups : List (String × List (RetrievalMetric F))) × AreGroups evaluation.question_metrics
          groups
      × (evaluation.by_question_type ≡ map (λ group. (group.0, aggregate float group.1)) groups)

  -- When the aggregation returns, its overall row counts every case, as scorable or as without
  -- evidence; there is a metric for every case and a bootstrap input for every scorable one; and the
  -- rows by question type share the cases, and the scorable cases, out with none lost or doubled:
  -- they are the aggregates of groups that have each question type of the metrics once, with metrics of
  -- that type only, and any count over the metrics is the sum of the counts over the groups.
  pub types-IsPartition :
      (cases : List (RetrievalCase F)) (k : ℤ) (evaluation : RetrievalEvaluation F)
      → aggregate_retrieval float cases k ≡ ok evaluation
      → IsPartition cases evaluation
  unfolding aggregate_retrieval
  types-IsPartition cases k evaluation returned =
      let (_, e) =
        raise_if-eq-ok (not (distinct (map (λ (case : RetrievalCase F). case.question_id) cases))) _
          _ returned in
      let (rows, found, e₁) = >>=-eq-ok (evaluate_all float cases k) _ e in
      let counted = length-evaluate_all cases k rows found in
      let (all_rows, share, both) = aggregate-Counts rows in
      let order = by_key (λ (row : RetrievalMetric F). row.question_id) ascending_str in
      let sizes = length-eq-sum_of rows in
      subst (IsPartition cases) (ok-injective e₁) (
        omega arith,
        omega arith,
        omega (arith, length-eq-sum_of (sorted order rows), sum_of-sorted order (λ _. 1) rows),
        omega (
          arith,
          length-map (to_bootstrap float) (filter_rows is_scorable (sorted order rows)),
          length-filter_rows is_scorable (sorted order rows),
          sum_of-sorted order scorable_share rows,
        ),
        omega (
          arith,
          groups_total (λ a. a.question_count) (λ _. 1) (λ rows. (aggregate-Counts rows).0) rows,
        ),
        omega (
          arith,
          groups_total (λ a. a.scorable_count) scorable_share (λ rows. (aggregate-Counts rows).1)
              rows,
        ),
        sorted (by_key (λ (group : String × List (RetrievalMetric F)). group.0) ascending_str)
            (group_rows [] rows),
        sorted-AreGroups order
            (by_key (λ (group : String × List (RetrievalMetric F)). group.0) ascending_str) rows,
        refl,
      )
