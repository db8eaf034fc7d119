-- ===== src/Retrieval/Rrf/Answers.antt =====
-- What `reciprocal_rank_fusion` returns: the fused scores, in order, numbered from 1.
use mathlib.Core.List.{Mem}
use mathlib.Core.List.Perm
use mathlib.Core.Path.{subst}
use ragbench_kr_implementati.Prelude.{
  ℕ, suc, ◌≡◌, ◌↔◌, refl, ap, sym, ◌∙◌, Option, none, some, String, List, [], ◌∷◌, map, any,
}
use ragbench_kr_implementati.Prelude.Int.{ℤ, pos, ltb_ℤ}
use ragbench_kr_implementati.Prelude.Float.{Float}
use ragbench_kr_implementati.Prelude.Result.{ok, raise_if-eq-ok, >>=-eq-ok, ok-injective}
use ragbench_kr_implementati.Prelude.Sorting.{
  IsSorted, sorted, sorted-IsSorted, sorted-perm, sorted-AllPairs,
}
use ragbench_kr_implementati.Prelude.Assoc.{str_key, lookup, Mem-lookup_iff, HasDistinctKeys}
use ragbench_kr_implementati.Retrieval.{SearchHit}
use ragbench_kr_implementati.Retrieval.Rrf.{
  Scores, by_score_then_id, number_hits, bad_weight, resolve_weights, fuse_rankings,
  reciprocal_rank_fusion,
}
use ragbench_kr_implementati.Retrieval.Rrf.Scores.{
  fused_score, lookup-fuse_rankings, fuse_rankings-HasDistinctKeys,
}

abbrev pub entry : {F : Type 0} → SearchHit F → String × F
entry hit = (hit.chunk_id, hit.score)

abbrev pub IsNumbered : {F : Type 0} → ℕ → List (SearchHit F) → Type 0
IsNumbered n [] = Unit
IsNumbered n (hit ∷ hits) = (hit.rank ≡ pos n) × IsNumbered (suc n) hits

module _ (float : Float) where
  open float use {F, float_set}

  number_hits-IsNumbered :
      (n : ℕ) (ranked : Scores float) → IsNumbered n (number_hits float n ranked)
  unfolding number_hits
  number_hits-IsNumbered n [] = tt
  number_hits-IsNumbered n ((id, score) ∷ ranked) = (refl, number_hits-IsNumbered (suc n) ranked)

  map-number_hits :
      (n : ℕ) (ranked : Scores float) → map entry (number_hits float n ranked) ≡ ranked
  unfolding number_hits
  map-number_hits n [] = refl
  map-number_hits n ((id, score) ∷ ranked) =
      ap (λ rest. (id, score) ∷ rest) (map-number_hits (suc n) ranked)

  module _ (rankings : List (List (SearchHit F))) (k : ℤ) (weights : Option (List F))
      {out : List (SearchHit F)}
      (returned : reciprocal_rank_fusion float rankings k weights ≡ ok out) where
    -- The scores that the loops leave, and the list that is returned.
    fused :
        (scores : Scores float) × (fuse_rankings float k [] rankings
            (resolve_weights float rankings weights)
          ≡ ok scores)
        × (number_hits float 1 (sorted (by_score_then_id float) scores) ≡ out)
    unfolding reciprocal_rank_fusion
    fused =
        let (_, checked) = raise_if-eq-ok (ltb_ℤ k (pos 0)) _ _ returned in
        let (_, sized) = raise_if-eq-ok _ _ _ checked in
        let (_, weighed) =
          raise_if-eq-ok (any (bad_weight float) (resolve_weights float rankings weights)) _ _
            sized in
        let (scores, looped, last) =
          >>=-eq-ok (fuse_rankings float k [] rankings (resolve_weights float rankings weights)) _
            weighed in
        (scores, looped, ok-injective last)

    entries : map entry out ≡ sorted (by_score_then_id float) fused.0
    entries = ap (map entry) (sym fused.2) ∙ map-number_hits 1 _

    -- An id and a score are in the answer exactly if the score is the sum of the id's contributions
    -- `weight / (k + rank)` over the rankings that hold it, added in the order of the rankings.
    pub fused_score_iff :
        (id : String) (score : F)
        → Mem (id, score) (map entry out) ↔ (
            fused_score float k id none rankings (resolve_weights float rankings weights)
            ≡ some score)
    unfolding lookup
    fused_score_iff id score =
        let (scores, looped, _) = fused in
        let found = lookup-fuse_rankings float k [] scores rankings _ id looped in
        let in_scores =
          Mem-lookup_iff float_set id score scores
            (fuse_rankings-HasDistinctKeys float k [] scores rankings _ looped tt) in
        let order = sorted-perm (by_score_then_id float) scores in
        (
          (λ m. sym found ∙ in_scores.0 (Perm.subset order _ (rw entries at m))),
          (λ e. rw entries (Perm.subset (Perm.symm order) _ (in_scores.1 (found ∙ e)))),
        )

    -- The answer is in descending order of score, equal scores in ascending order of chunk id; no
    -- chunk id occurs twice; and the ranks count up from 1.
    pub fusion_order :
        IsSorted (by_score_then_id float) (map entry out)
        × HasDistinctKeys (map entry out)
        × IsNumbered 1 out
    fusion_order =
        let (scores, looped, numbered) = fused in
        (
          rw entries (sorted-IsSorted (by_score_then_id float) scores),
          rw entries (
              sorted-AllPairs (by_score_then_id float) (λ a b ne same. ne (sym same)) scores
                (fuse_rankings-HasDistinctKeys float k [] scores rankings _ looped tt)),
          subst (IsNumbered 1) numbered (number_hits-IsNumbered 1 _),
        )
