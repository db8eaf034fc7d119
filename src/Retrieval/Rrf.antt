-- ===== src/Retrieval/Rrf.antt =====
-- src/ragbench/retrieval/rrf.py, `reciprocal_rank_fusion`. `k` is an int: the test for a bool or
-- another type is the parameter's type here.
pub mod Scores
pub mod Totality
pub mod Answers
use ragbench_kr_implementati.Prelude.{
  ℕ, suc, Option, none, some, Bool, true, false, not, ◌||◌, String, List, [], ◌∷◌, map, ◌==◌,
  length, any,
}
use ragbench_kr_implementati.Prelude.Int.{ℤ, pos, ◌+ℤ◌, ltb_ℤ, eqb_ℤ}
use ragbench_kr_implementati.Prelude.Float.{Float}
use ragbench_kr_implementati.Prelude.Result.{
  Result, ok, err, raise_if, value_error, overflow_error, ◌>>=◌, ◌>>◌,
}
use ragbench_kr_implementati.Prelude.Sorting.{
  Preorder, by_key, descending, ascending_str, ◌then_by◌, sorted,
}
use ragbench_kr_implementati.Prelude.Assoc.{str_key, contains, lookup, put}
use ragbench_kr_implementati.Retrieval.{SearchHit}

module _ (float : Float) where
  open float use {F, zero_float, one_float, add, div_int, int_fits, is_finite, order}

  abbrev pub Scores : Type 0
  Scores = List (String × F)

  -- `scores.get(chunk_id, 0.0)`.
  abbrev pub score_or_zero : Option F → F
  score_or_zero none = zero_float
  score_or_zero (some score) = score

  -- The inner loop, from `expected_rank` on, with the ids seen in this ranking.
  unfoldable pub fuse_ranking :
      ℤ → F → ℕ → List String → Scores → List (SearchHit F) → Result Scores
  unfolding contains lookup put
  fuse_ranking k weight expected_rank seen scores [] = ok scores
  fuse_ranking k weight expected_rank seen scores (hit ∷ ranking) = do
    raise_if (not (eqb_ℤ hit.rank (pos expected_rank)))
        (value_error "component ranks must be sequential and start at one")
    raise_if (contains hit.chunk_id seen)
        (value_error "duplicate chunk IDs are not allowed within a ranking")
    raise_if (not (int_fits (k +ℤ hit.rank))) overflow_error
    let score = add (score_or_zero (lookup hit.chunk_id scores)) (div_int weight (k +ℤ hit.rank))
    fuse_ranking k weight (suc expected_rank) (hit.chunk_id ∷ seen) (put hit.chunk_id score scores)
        ranking

  -- The outer loop over `zip(rankings, resolved_weights)`, which have one length here.
  unfoldable pub fuse_rankings : ℤ → Scores → List (List (SearchHit F)) → List F → Result Scores
  unfolding fuse_ranking
  fuse_rankings k scores (ranking ∷ rankings) (weight ∷ weights) = do
    scores' ← fuse_ranking k weight 1 [] scores ranking
    fuse_rankings k scores' rankings weights
  fuse_rankings k scores rankings weights = ok scores

  -- `(-item[1], item[0])`.
  abbrev pub by_score_then_id : Preorder (String × F)
  by_score_then_id =
      descending (by_key (λ item. item.1) order) then_by by_key (λ item. item.0) ascending_str

  unfoldable pub number_hits : ℕ → Scores → List (SearchHit F)
  number_hits rank [] = []
  number_hits rank ((chunk_id, score) ∷ ranked) =
      record {
        chunk_id = chunk_id;
        score = score;
        rank = pos rank;
        retriever = "rrf";
        evidence = none;
      }
      ∷ number_hits (suc rank) ranked

  -- `not math.isfinite(weight) or weight <= 0`.
  abbrev pub bad_weight : F → Bool
  bad_weight weight = not (is_finite weight) || order.le weight zero_float

  abbrev pub resolve_weights : List (List (SearchHit F)) → Option (List F) → List F
  resolve_weights rankings none = map (λ _. one_float) rankings
  resolve_weights rankings (some weights) = weights

  unfoldable pub reciprocal_rank_fusion :
      List (List (SearchHit F)) → ℤ → Option (List F) → Result (List (SearchHit F))
  unfolding fuse_rankings number_hits sorted
  reciprocal_rank_fusion rankings k weights = do
    raise_if (ltb_ℤ k (pos 0)) (value_error "k must be a nonnegative integer")
    let resolved_weights = resolve_weights rankings weights
    raise_if (not (length resolved_weights == length rankings))
        (value_error "weights length must match rankings length")
    raise_if (any bad_weight resolved_weights) (value_error "weights must be finite and positive")
    scores ← fuse_rankings k [] rankings resolved_weights
    ok (number_hits 1 (sorted by_score_then_id scores))
