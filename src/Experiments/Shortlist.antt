-- ===== src/Experiments/Shortlist.antt =====
-- src/ragbench/experiments/selection.py, `select_retrieval_shortlist`.
pub mod Families
pub mod Diversity
pub mod Selection
use ragbench_kr_implementati.Prelude.{
  ℕ, suc, ◌+◌, ◌/◌, ◌==◌, Bool, true, false, not, ◌&&◌, ◌||◌, Option, none, some, String, List, [],
  ◌∷◌, ◌++◌, map, length, take, any, all, filter_rows, ltb, leb, if◌then◌else◌,
}
use ragbench_kr_implementati.Prelude.Int.{ℤ, pos, pos_part, leb_ℤ, eqb_ℤ}
use ragbench_kr_implementati.Prelude.Float.{Float}
use ragbench_kr_implementati.Prelude.Result.{Result, ok, err, raise_if, value_error, ◌>>=◌, ◌>>◌}
use ragbench_kr_implementati.Prelude.Sorting.{
  Preorder, by_key, descending, ◌then_by◌, ascending_str, sorted,
}
use ragbench_kr_implementati.Prelude.Assoc.{
  str_key, int_key, pair_key, contains, distinct, lookup, put, to_set, same_keys,
}
use ragbench_kr_implementati.Experiments.{
  RetrievalExperimentConfig, parse_modes, chunk_strategies, retrievers, top_k_values,
}

-- The fields that the selection reads.
pub record ScreeningOutcome (F : Type 0) : Type 0 where
  pub config : RetrievalExperimentConfig F
  pub hit_at_5 : F
  pub recall_at_5 : F
  pub micro_recall_at_5 : F
  pub mrr : F
  pub mean_latency_ms : F
  pub question_count : ℤ
  pub scorable_count : ℤ
  pub no_evidence_count : ℤ
  pub bootstrap_inputs_hash : String

-- Tuples are nested to the right.
abbrev pub Family : Type 0
Family = String × (String × String)

abbrev pub Axes : Type 0
Axes = String × (String × (String × ℤ))

abbrev pub Cohort : Type 0
Cohort = String × (String × (String × (String × ℤ)))

module _ {F : Type 0} where
  abbrev pub mode_of : ScreeningOutcome F → String
  mode_of outcome = outcome.config.parse_mode

  abbrev pub retriever_of : ScreeningOutcome F → String
  retriever_of outcome = outcome.config.retriever

  abbrev pub family_of : ScreeningOutcome F → Family
  family_of outcome =
      (outcome.config.parse_mode, (outcome.config.chunk_strategy, outcome.config.retriever))

  abbrev pub axes_of : ScreeningOutcome F → Axes
  axes_of row =
      (row.config.parse_mode, (row.config.chunk_strategy, (row.config.retriever, row.config.top_k)))

  abbrev pub cohort_of : ScreeningOutcome F → Cohort
  cohort_of row = (
    row.config.corpus_snapshot_id,
    (
      row.config.question_snapshot_id,
      (row.config.code_commit, (row.config.metric_version, row.config.random_seed)),
    ),
  )

  abbrev pub variant_of : ScreeningOutcome F → String × String
  variant_of row = (row.config.parse_mode, row.config.chunk_strategy)

  abbrev pub snapshots_of : ScreeningOutcome F → String × String
  snapshots_of row = (row.config.chunk_snapshot_id, row.config.embedding_snapshot_id)

-- `for x in xs for y in ys`
unfoldable pub product {ℓ κ} : {A : Type ℓ} {B : Type κ} → List A → List B → List (A × B)
product [] ys = []
product (x ∷ xs) ys = map (λ y. (x, y)) ys ++ product xs ys

unfoldable pub expected_axes : List (Axes)
unfolding product
expected_axes = product parse_modes (product chunk_strategies (product retrievers top_k_values))

module _ {F : Type 0} (outcomes : List (ScreeningOutcome F)) where
  -- `len(values) != 1` of a parse mode's snapshots, and of a variant's.
  unfoldable pub unbound_mode : String → Bool
  unfolding to_set filter_rows
  unbound_mode mode = not (
      length (
        to_set (
          map (λ row. row.config.parse_snapshot_id)
            (filter_rows (λ row. str_key.eq (mode_of row) mode) outcomes)))
      == 1)

  unfoldable pub unbound_variant : String × String → Bool
  unfolding to_set filter_rows
  unbound_variant variant = not (
      length (
        to_set
          (map snapshots_of (filter_rows (λ row. pair_key.eq (variant_of row) variant) outcomes)))
      == 1)

  -- The checks of `require_complete_grid`.
  unfoldable pub check_grid : Result (Unit {0})
  unfolding expected_axes unbound_mode unbound_variant to_set same_keys
  check_grid = do
    raise_if (not (length outcomes == 126))
        (value_error "shortlist selection requires the complete 126-configuration grid")
    raise_if (not (same_keys (map axes_of outcomes) expected_axes))
        (value_error "screening outcomes do not cover the exact core configuration grid")
    let variants = to_set (map variant_of outcomes)
    raise_if
        (any unbound_mode parse_modes
          || not (length variants == 14)
          || any unbound_variant variants)
        (value_error "core grid snapshot bindings are inconsistent")
    ok tt

-- `best_by_family.setdefault(family, outcome)`, over the rows in order.
unfoldable pub set_default :
    {F : Type 0}
    → ScreeningOutcome F
    → List (Family × ScreeningOutcome F)
    → Option (ScreeningOutcome F)
    → List (Family × ScreeningOutcome F)
unfolding put
set_default outcome best_by_family (some present) = best_by_family
set_default outcome best_by_family none = put (family_of outcome) outcome best_by_family

unfoldable pub best_of_families :
    {F : Type 0}
    → List (Family × ScreeningOutcome F)
    → List (ScreeningOutcome F)
    → List (Family × ScreeningOutcome F)
unfolding set_default lookup
best_of_families best_by_family [] = best_by_family
best_of_families best_by_family (outcome ∷ outcomes) =
    best_of_families
      (set_default outcome best_by_family (lookup (family_of outcome) best_by_family)) outcomes

-- A `Counter`: a missing key counts 0.
abbrev pub or_zero : Option ℕ → ℕ
or_zero none = 0
or_zero (some n) = n

unfoldable pub count_at : String → List (String × ℕ) → ℕ
unfolding lookup
count_at key counter = or_zero (lookup key counter)

unfoldable pub increment : String → List (String × ℕ) → List (String × ℕ)
unfolding put count_at
increment key counter = put key (suc (count_at key counter)) counter

-- The loop that picks `size` rows under the caps.
unfoldable pub choose :
    {F : Type 0}
    → ℕ
    → ℕ
    → List (String × ℕ)
    → List (String × ℕ)
    → List (ScreeningOutcome F)
    → List (ScreeningOutcome F)
    → Result (List (ScreeningOutcome F))
unfolding count_at increment
choose size cap parse_counts retriever_counts selected [] =
    err (value_error "outcomes cannot satisfy the predeclared shortlist diversity constraints")
choose size cap parse_counts retriever_counts selected (outcome ∷ ranked) =
    let continued = choose size cap parse_counts retriever_counts selected ranked in
    let longer = selected ++ outcome ∷ [] in
    let rest =
      choose size cap (increment (mode_of outcome) parse_counts)
        (increment (retriever_of outcome) retriever_counts) longer ranked in
    if leb cap (count_at (mode_of outcome) parse_counts)
    then continued
    else if leb cap (count_at (retriever_of outcome) retriever_counts)
    then continued
    else if length longer == size
    then ok longer
    else rest

module _ (float : Float) where
  open float use {F, order}

  -- `_quality_key`
  abbrev pub quality_order : (RetrievalExperimentConfig F → String) → Preorder (ScreeningOutcome F)
  quality_order semantic_hash =
      by_key (λ row. row.recall_at_5) (descending order)
      then_by by_key (λ row. row.mrr) (descending order)
      then_by by_key (λ row. row.mean_latency_ms) order
      then_by by_key (λ row. semantic_hash row.config) ascending_str

  -- The ranked best rows of the families of the selection pool.
  unfoldable pub rank_families :
      (RetrievalExperimentConfig F → String) → List (ScreeningOutcome F) → List (ScreeningOutcome F)
  unfolding best_of_families sorted
  rank_families semantic_hash pool =
      let order = quality_order semantic_hash in
      sorted order (map (λ entry. entry.1) (best_of_families [] (sorted order pool)))

  unfoldable pub pool_of : Bool → List (ScreeningOutcome F) → List (ScreeningOutcome F)
  unfolding filter_rows
  pool_of true outcomes = filter_rows (λ row. eqb_ℤ row.config.top_k (pos 5)) outcomes
  pool_of false outcomes = outcomes

  unfoldable pub check_complete : Bool → List (ScreeningOutcome F) → Result (Unit {0})
  unfolding check_grid
  check_complete true outcomes = check_grid outcomes
  check_complete false outcomes = ok tt

  -- The first `size` rows, or `size` rows under the caps of `ceil(size / 2)`.
  unfoldable pub select_ranked :
      ℕ → Bool → List (ScreeningOutcome F) → Result (List (ScreeningOutcome F))
  unfolding choose
  select_ranked size false ranked = do
    raise_if (ltb (length ranked) size)
        (value_error "not enough distinct screening families for shortlist")
    ok (take size ranked)
  select_ranked size true ranked = choose size ((size + 1) / 2) [] [] [] ranked

  unfoldable pub select_retrieval_shortlist :
      (RetrievalExperimentConfig F → String)
      → List (ScreeningOutcome F)
      → ℤ
      → Bool
      → Bool
      → Result (List (ScreeningOutcome F))
  unfolding check_complete distinct to_set pool_of rank_families select_ranked
  select_retrieval_shortlist semantic_hash outcomes size enforce_core_diversity
        require_complete_grid =
      do
        raise_if (leb_ℤ size (pos 0)) (value_error "shortlist size must be a positive integer")
        raise_if (not (distinct (map (λ outcome. semantic_hash outcome.config) outcomes)))
            (value_error "duplicate semantic screening outcomes are not allowed")
        check_complete require_complete_grid outcomes
        raise_if (not (length (to_set (map cohort_of outcomes)) == 1))
            (value_error "screening outcomes must belong to one immutable comparison cohort")
        select_ranked (pos_part size) enforce_core_diversity
            (rank_families semantic_hash (pool_of require_complete_grid outcomes))
