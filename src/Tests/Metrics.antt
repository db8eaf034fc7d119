-- ===== src/Tests/Metrics.antt =====
-- src/ragbench/evaluation/retrieval.py. Three questions, of which one has no evidence, in fixed-point
-- numbers.
use ragbench_kr_implementati.Prelude.{
  ℕ, ◌≡◌, ◌≤◌, ◌/◌, refl, true, Option, none, some, String, List, [], ◌∷◌, map, All, AllPairs,
  arith,
}
use ragbench_kr_implementati.Prelude.Int.{ℤ, pos}
use ragbench_kr_implementati.Prelude.Float.{fixed_point}
use ragbench_kr_implementati.Prelude.Result.{Result, ok, err}
use ragbench_kr_implementati.Prelude.Text.{str_leb}
use ragbench_kr_implementati.Prelude.Assoc.{str_key, contains}
use ragbench_kr_implementati.Evaluation.Metrics.{
  RetrievalCase, RetrievalMetric, RetrievalAggregate, RetrievalEvaluation, PairedBootstrapInput,
  new_case, evaluate_retrieval, aggregate_retrieval, paired_bootstrap_inputs,
}
use ragbench_kr_implementati.Evaluation.Metrics.Bounds.{
  evaluate_retrieval_bounds, evaluate_retrieval_mono, IsFraction,
}
use ragbench_kr_implementati.Evaluation.Metrics.Ranks.{hit_and_rank, HitAndRank}
use ragbench_kr_implementati.Evaluation.Metrics.Groups.{types-IsPartition, IsPartition}
use ragbench_kr_implementati.Evaluation.Metrics.Pairs.{pairing, IsPairOf, questions_of}
use ragbench_kr_implementati.Prelude.Once.{IsOnceEach}

abbrev or_default {ℓ} : {A : Type ℓ} → A → Result A → A
or_default a (ok b) = b
or_default a (err e) = a

abbrev second_hit : RetrievalCase ℕ
second_hit = record {
  question_id = "q1";
  question_type = "fact";
  ranked_chunk_ids = "a" ∷ "b" ∷ "c" ∷ [];
  evidence_chunk_ids = "b" ∷ "d" ∷ [];
  latency_ms = 5;
}

abbrev late_hit : RetrievalCase ℕ
late_hit = record {
  question_id = "q0";
  question_type = "table";
  ranked_chunk_ids = "a" ∷ "b" ∷ "c" ∷ [];
  evidence_chunk_ids = "c" ∷ [];
  latency_ms = 7;
}

abbrev no_evidence : RetrievalCase ℕ
no_evidence = record {
  question_id = "q2";
  question_type = "fact";
  ranked_chunk_ids = "a" ∷ [];
  evidence_chunk_ids = [];
  latency_ms = 3;
}

abbrev metric_at : ℕ → ℕ → ℕ → RetrievalMetric ℕ
metric_at k found hit = record {
  question_id = "q1";
  question_type = "fact";
  k = pos k;
  evidence_count = 2;
  retrieved_evidence_count = found;
  hit_at_k = some hit;
  evidence_recall_at_k = some (hit / 2);
  mrr = some 500000;
  latency_ms = 5;
}

second_hit_at_2 : evaluate_retrieval fixed_point second_hit (pos 2) ≡ ok (metric_at 2 1 1000000)
unfolding evaluate_retrieval
second_hit_at_2 = refl

second_hit_at_1 : evaluate_retrieval fixed_point second_hit (pos 1) ≡ ok (metric_at 1 0 0)
unfolding evaluate_retrieval
second_hit_at_1 = refl

second_hit_built :
    new_case fixed_point "q1" "fact" ("a" ∷ "b" ∷ "c" ∷ []) ("b" ∷ "d" ∷ []) 5 ≡ ok second_hit
unfolding new_case
second_hit_built = refl

evaluate_retrieval_bounds_example : (1 ≤ 2) × (1 ≤ 2) × IsFraction fixed_point (some 500000)
evaluate_retrieval_bounds_example =
    evaluate_retrieval_bounds fixed_point "q1" "fact" ("a" ∷ "b" ∷ "c" ∷ []) ("b" ∷ "d" ∷ []) 5
      second_hit (pos 2) (metric_at 2 1 1000000) second_hit_built second_hit_at_2

hit_and_rank_example : HitAndRank fixed_point 1 (metric_at 2 1 1000000)
hit_and_rank_example =
    hit_and_rank fixed_point second_hit 1 (metric_at 2 1 1000000) second_hit_at_2 (omega arith)

evaluate_retrieval_mono_example :
    ◌≡◌ {A = ℕ} 2 2 × ◌≡◌ {A = Option ℕ} (some 500000) (some 500000) × (0 ≤ 1)
evaluate_retrieval_mono_example =
    evaluate_retrieval_mono fixed_point second_hit (pos 1) (pos 2) (metric_at 1 0 0)
      (metric_at 2 1 1000000) second_hit_at_1 second_hit_at_2 (omega arith)

abbrev cases : List (RetrievalCase ℕ)
cases = second_hit ∷ late_hit ∷ no_evidence ∷ []

abbrev no_rows : RetrievalAggregate ℕ
no_rows = record {
  question_count = 0;
  scorable_count = 0;
  no_evidence_count = 0;
  macro_hit_at_k = none;
  macro_evidence_recall_at_k = none;
  micro_evidence_recall_at_k = none;
  macro_mrr = none;
  mean_latency_ms = none;
}

abbrev nothing : ℤ → RetrievalEvaluation ℕ
nothing k = record {
  k = k;
  overall = no_rows;
  by_question_type = [];
  question_metrics = [];
  bootstrap_inputs = [];
}

abbrev evaluation : RetrievalEvaluation ℕ
unfolding aggregate_retrieval
evaluation = or_default (nothing (pos 2)) (aggregate_retrieval fixed_point cases (pos 2))

evaluated : aggregate_retrieval fixed_point cases (pos 2) ≡ ok evaluation
unfolding aggregate_retrieval
evaluated = refl

recall_of_both : evaluation.overall.micro_evidence_recall_at_k ≡ some 333333
unfolding evaluation
recall_of_both = refl

types-IsPartition_example : IsPartition fixed_point cases evaluation
types-IsPartition_example = types-IsPartition fixed_point cases (pos 2) evaluation evaluated

abbrev pairs : List (PairedBootstrapInput ℕ)
unfolding paired_bootstrap_inputs
pairs = or_default [] (paired_bootstrap_inputs fixed_point evaluation evaluation)

paired : paired_bootstrap_inputs fixed_point evaluation evaluation ≡ ok pairs
unfolding paired_bootstrap_inputs evaluation str_leb
paired = refl

two_pairs : map (λ pair. pair.question_id) pairs ≡ "q0" ∷ "q1" ∷ []
unfolding pairs evaluation str_leb
two_pairs = refl

pairing_example :
    let rows = evaluation.bootstrap_inputs in
    let ids = map (λ pair. pair.question_id) pairs in
    (evaluation.k ≡ evaluation.k)
    × ((id : String)
        → contains id (questions_of fixed_point rows) ≡ contains id (questions_of fixed_point rows))
    × IsOnceEach (questions_of fixed_point rows) ids
    × AllPairs (λ a b. str_leb a b ≡ true) ids
    × All (IsPairOf fixed_point rows rows) pairs
pairing_example = pairing fixed_point evaluation evaluation pairs paired
