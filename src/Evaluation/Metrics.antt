-- ===== src/Evaluation/Metrics.antt =====
-- src/ragbench/evaluation/retrieval.py. `k` is an int; that it is no bool is the parameter's type.
pub mod Counting
pub mod Bounds
pub mod Ranks
pub mod Grouping
pub mod Groups
pub mod Pairs
use ragbench_kr_implementati.Prelude.{
  ℕ, suc, ◌+◌, ◌-◌, ◌==◌, Option, none, some, Bool, true, false, not, ◌&&◌, ◌||◌, String, List, [],
  ◌∷◌, ◌++◌, map, length, take, ltb, filter_rows, sum_of, if◌then◌else◌, str_eq,
}
use ragbench_kr_implementati.Prelude.Int.{ℤ, pos, pos_part, leb_ℤ, eqb_ℤ}
use ragbench_kr_implementati.Prelude.Float.{Float}
use ragbench_kr_implementati.Prelude.Text.{is_blank}
use ragbench_kr_implementati.Prelude.Result.{
  Result, ok, err, raise_if, value_error, key_error, ◌>>=◌, ◌>>◌,
}
use ragbench_kr_implementati.Prelude.Sorting.{by_key, ascending_str, sorted}
use ragbench_kr_implementati.Prelude.Assoc.{
  str_key, contains, distinct, to_set, lookup, put, same_keys,
}

pub record RetrievalCase (F : Type 0) : Type 0 where
  pub question_id : String
  pub question_type : String
  pub ranked_chunk_ids : List String
  pub evidence_chunk_ids : List String
  pub latency_ms : F

pub record RetrievalMetric (F : Type 0) : Type 0 where
  pub question_id : String
  pub question_type : String
  pub k : ℤ
  pub evidence_count : ℕ
  pub retrieved_evidence_count : ℕ
  pub hit_at_k : Option F
  pub evidence_recall_at_k : Option F
  pub mrr : Option F
  pub latency_ms : F

abbrev pub is_scorable : {F : Type 0} → RetrievalMetric F → Bool
is_scorable row = ltb 0 row.evidence_count

pub record BootstrapInput (F : Type 0) : Type 0 where
  pub question_id : String
  pub question_type : String
  pub hit_at_k : F
  pub evidence_recall_at_k : F
  pub mrr : F

pub record PairedBootstrapInput (F : Type 0) : Type 0 where
  pub question_id : String
  pub question_type : String
  pub left_hit_at_k : F
  pub right_hit_at_k : F
  pub left_evidence_recall_at_k : F
  pub right_evidence_recall_at_k : F
  pub left_mrr : F
  pub right_mrr : F

pub record RetrievalAggregate (F : Type 0) : Type 0 where
  pub question_count : ℕ
  pub scorable_count : ℕ
  pub no_evidence_count : ℕ
  pub macro_hit_at_k : Option F
  pub macro_evidence_recall_at_k : Option F
  pub micro_evidence_recall_at_k : Option F
  pub macro_mrr : Option F
  pub mean_latency_ms : Option F

pub record RetrievalEvaluation (F : Type 0) : Type 0 where
  pub k : ℤ
  pub overall : RetrievalAggregate F
  pub by_question_type : List (String × RetrievalAggregate F)
  pub question_metrics : List (RetrievalMetric F)
  pub bootstrap_inputs : List (BootstrapInput F)

-- `sum(chunk_id in evidence for chunk_id in top)`.
unfoldable pub count_in : List String → List String → ℕ
unfolding contains
count_in evidence [] = 0
count_in evidence (id ∷ ids) =
    let rest = count_in evidence ids in if contains id evidence then suc rest else rest

-- `grouped[row.question_type].append(row)` into a `defaultdict(list)`.
abbrev pub rows_at {ℓ} : {A : Type ℓ} → Option (List A) → List A
rows_at none = []
rows_at (some rows) = rows

unfoldable pub group_rows :
    {F : Type 0}
    → List (String × List (RetrievalMetric F))
    → List (RetrievalMetric F)
    → List (String × List (RetrievalMetric F))
unfolding lookup put
group_rows grouped [] = grouped
group_rows grouped (row ∷ rows) =
    group_rows
      (put row.question_type (rows_at (lookup row.question_type grouped) ++ row ∷ []) grouped) rows

module _ (float : Float) where
  open float use {F, zero_float, one_float, ratio, div_int, sum_float, is_finite, order}

  -- `RetrievalCase(...)`, with its `__post_init__`.
  unfoldable pub new_case :
      String → String → List String → List String → F → Result (RetrievalCase F)
  unfolding is_blank distinct
  new_case question_id question_type ranked_chunk_ids evidence_chunk_ids latency_ms = do
    raise_if (is_blank question_id || is_blank question_type)
        (value_error "retrieval case identity cannot be blank")
    raise_if (not (is_finite latency_ms)) (value_error "retrieval latency must be finite")
    raise_if (not (order.le zero_float latency_ms))
        (value_error "retrieval latency cannot be negative")
    raise_if (not (distinct ranked_chunk_ids)) (value_error "ranked chunk IDs must be unique")
    raise_if (not (distinct evidence_chunk_ids)) (value_error "evidence chunk IDs must be unique")
    ok (record {
      question_id = question_id;
      question_type = question_type;
      ranked_chunk_ids = ranked_chunk_ids;
      evidence_chunk_ids = evidence_chunk_ids;
      latency_ms = latency_ms;
    })

  -- The `next(...)` over ranks that count from `rank`.
  unfoldable pub reciprocal_rank : List String → ℕ → List String → F
  unfolding contains
  reciprocal_rank evidence rank [] = zero_float
  reciprocal_rank evidence rank (id ∷ ids) =
      if contains id evidence then ratio 1 rank else reciprocal_rank evidence (suc rank) ids

  abbrev pub unscored : RetrievalCase F → ℤ → RetrievalMetric F
  unscored case k = record {
    question_id = case.question_id;
    question_type = case.question_type;
    k = k;
    evidence_count = 0;
    retrieved_evidence_count = 0;
    hit_at_k = none;
    evidence_recall_at_k = none;
    mrr = none;
    latency_ms = case.latency_ms;
  }

  abbrev pub scored : RetrievalCase F → ℤ → List String → ℕ → RetrievalMetric F
  scored case k evidence retrieved_count = record {
    question_id = case.question_id;
    question_type = case.question_type;
    k = k;
    evidence_count = length evidence;
    retrieved_evidence_count = retrieved_count;
    hit_at_k = some (if ltb 0 retrieved_count then one_float else zero_float);
    evidence_recall_at_k = some (ratio retrieved_count (length evidence));
    mrr = some (reciprocal_rank evidence 1 case.ranked_chunk_ids);
    latency_ms = case.latency_ms;
  }

  unfoldable pub score_case : RetrievalCase F → ℤ → List String → RetrievalMetric F
  unfolding count_in reciprocal_rank
  score_case case k [] = unscored case k
  score_case case k (id ∷ ids) =
      scored case k (id ∷ ids) (count_in (id ∷ ids) (take (pos_part k) case.ranked_chunk_ids))

  unfoldable pub evaluate_retrieval : RetrievalCase F → ℤ → Result (RetrievalMetric F)
  unfolding score_case to_set
  evaluate_retrieval case k = do
    raise_if (leb_ℤ k (pos 0)) (value_error "k must be a positive integer")
    ok (score_case case k (to_set case.evidence_chunk_ids))

  -- `value or 0.0`.
  abbrev pub or_zero : Option F → F
  or_zero none = zero_float
  or_zero (some value) = value

  abbrev pub mean : (RetrievalMetric F → F) → List (RetrievalMetric F) → F
  mean value rows = div_int (sum_float (map value rows)) (pos (length rows))

  abbrev pub mean_latency : List (RetrievalMetric F) → Option F
  mean_latency [] = none
  mean_latency (row ∷ rows) = some (mean (λ r. r.latency_ms) (row ∷ rows))

  aggregate_scored : List (RetrievalMetric F) → List (RetrievalMetric F) → RetrievalAggregate F
  aggregate_scored rows [] = record {
    question_count = length rows;
    scorable_count = 0;
    no_evidence_count = length rows;
    macro_hit_at_k = none;
    macro_evidence_recall_at_k = none;
    micro_evidence_recall_at_k = none;
    macro_mrr = none;
    mean_latency_ms = mean_latency rows;
  }
  aggregate_scored rows (first ∷ rest) =
      let scored_rows = first ∷ rest in
      record {
        question_count = length rows;
        scorable_count = length scored_rows;
        no_evidence_count = length rows - length scored_rows;
        macro_hit_at_k = some (mean (λ row. or_zero row.hit_at_k) scored_rows);
        macro_evidence_recall_at_k =
            some (mean (λ row. or_zero row.evidence_recall_at_k) scored_rows);
        micro_evidence_recall_at_k = some (
            ratio (sum_of (λ row. row.retrieved_evidence_count) scored_rows)
              (sum_of (λ row. row.evidence_count) scored_rows));
        macro_mrr = some (mean (λ row. or_zero row.mrr) scored_rows);
        mean_latency_ms = mean_latency rows;
      }

  -- `_aggregate`.
  unfoldable pub aggregate : List (RetrievalMetric F) → RetrievalAggregate F
  unfolding aggregate_scored filter_rows
  aggregate rows = aggregate_scored rows (filter_rows is_scorable rows)

  unfoldable pub evaluate_all : List (RetrievalCase F) → ℤ → Result (List (RetrievalMetric F))
  unfolding evaluate_retrieval
  evaluate_all [] k = ok []
  evaluate_all (case ∷ cases) k = do
    row ← evaluate_retrieval case k
    rows ← evaluate_all cases k
    ok (row ∷ rows)

  abbrev pub to_bootstrap : RetrievalMetric F → BootstrapInput F
  to_bootstrap row = record {
    question_id = row.question_id;
    question_type = row.question_type;
    hit_at_k = or_zero row.hit_at_k;
    evidence_recall_at_k = or_zero row.evidence_recall_at_k;
    mrr = or_zero row.mrr;
  }

  unfoldable pub aggregate_retrieval : List (RetrievalCase F) → ℤ → Result (RetrievalEvaluation F)
  unfolding evaluate_all aggregate group_rows sorted distinct
  aggregate_retrieval cases k = do
    raise_if (not (distinct (map (λ case. case.question_id) cases)))
        (value_error "retrieval case question IDs must be unique")
    rows ← evaluate_all cases k
    let ordered = sorted (by_key (λ row. row.question_id) ascending_str) rows
    ok (record {
      k = k;
      overall = aggregate rows;
      by_question_type =
          map (λ group. (group.0, aggregate group.1))
            (sorted (by_key (λ group. group.0) ascending_str) (group_rows [] rows));
      question_metrics = ordered;
      bootstrap_inputs = map to_bootstrap (filter_rows is_scorable ordered);
    })

  -- `{row.question_id: row for row in ...}`.
  unfoldable pub index_rows :
      List (String × BootstrapInput F) → List (BootstrapInput F) → List (String × BootstrapInput F)
  unfolding put
  index_rows by_id [] = by_id
  index_rows by_id (row ∷ rows) = index_rows (put row.question_id row by_id) rows

  abbrev pub pair_rows : String → BootstrapInput F → BootstrapInput F → PairedBootstrapInput F
  pair_rows question_id left right = record {
    question_id = question_id;
    question_type = left.question_type;
    left_hit_at_k = left.hit_at_k;
    right_hit_at_k = right.hit_at_k;
    left_evidence_recall_at_k = left.evidence_recall_at_k;
    right_evidence_recall_at_k = right.evidence_recall_at_k;
    left_mrr = left.mrr;
    right_mrr = right.mrr;
  }

  -- One round of the pairing loop; `left_by_id[question_id]` raises on a missing key.
  unfoldable pub pair_found :
      String
      → Option (BootstrapInput F)
      → Option (BootstrapInput F)
      → Result (PairedBootstrapInput F)
  pair_found question_id none right = err key_error
  pair_found question_id (some left) none = err key_error
  pair_found question_id (some left) (some right) = do
    raise_if (not (str_eq left.question_type right.question_type))
        (value_error "paired bootstrap question types do not match")
    ok (pair_rows question_id left right)

  unfoldable pub pair_all :
      List (String × BootstrapInput F)
      → List (String × BootstrapInput F)
      → List String
      → Result (List (PairedBootstrapInput F))
  unfolding pair_found lookup
  pair_all left_by_id right_by_id [] = ok []
  pair_all left_by_id right_by_id (id ∷ ids) = do
    pair ← pair_found id (lookup id left_by_id) (lookup id right_by_id)
    pairs ← pair_all left_by_id right_by_id ids
    ok (pair ∷ pairs)

  unfoldable pub paired_bootstrap_inputs :
      RetrievalEvaluation F → RetrievalEvaluation F → Result (List (PairedBootstrapInput F))
  unfolding index_rows pair_all sorted same_keys
  paired_bootstrap_inputs left right = do
    raise_if (not (eqb_ℤ left.k right.k))
        (value_error "paired bootstrap requires the same metric K")
    let left_by_id = index_rows [] left.bootstrap_inputs
    let right_by_id = index_rows [] right.bootstrap_inputs
    raise_if (not (same_keys (map (λ e. e.0) left_by_id) (map (λ e. e.0) right_by_id)))
        (value_error "paired bootstrap requires the same scorable questions")
    pair_all left_by_id right_by_id (sorted ascending_str (map (λ e. e.0) left_by_id))
