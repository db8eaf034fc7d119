-- ===== src/Tests/Fusion.antt =====
-- src/ragbench/retrieval/rrf.py and service.py. Two branches with one chunk in common, in fixed-point
-- scores.
use ragbench_kr_implementati.Prelude.{
  ℕ, ◌≡◌, ◌≢◌, ◌↔◌, refl, none, some, String, List, [], ◌∷◌, map, All, length, arith, eq_iff, take,
  max, ◌*◌,
}
use ragbench_kr_implementati.Prelude.Int.{pos, ◌≤ℤ◌, ◌+ℤ◌}
use ragbench_kr_implementati.Prelude.Float.{fixed_point}
use ragbench_kr_implementati.Prelude.Result.{ok}
use ragbench_kr_implementati.Prelude.Text.{str_leb}
use ragbench_kr_implementati.Prelude.Sorting.{IsSorted}
use ragbench_kr_implementati.Prelude.Assoc.{HasDistinctKeys}
use ragbench_kr_implementati.Retrieval.{SearchFilter, SearchHit}
use ragbench_kr_implementati.Retrieval.Rrf.{
  by_score_then_id, resolve_weights, reciprocal_rank_fusion,
}
use ragbench_kr_implementati.Retrieval.Rrf.Scores.{fused_score}
use ragbench_kr_implementati.Retrieval.Rrf.Answers.{
  entry, IsNumbered, fused_score_iff, fusion_order,
}
use ragbench_kr_implementati.Retrieval.Rrf.Totality.{IsRanking, Fits, fusion_returns, fusion_checks}
use ragbench_kr_implementati.Retrieval.Hybrid.{HybridRetriever, search}
use ragbench_kr_implementati.Retrieval.Hybrid.Evidence.{IsBacked, search_evidence}
use mathlib.Core.List.{Mem}

abbrev hit : String → ℕ → String → SearchHit ℕ
hit chunk_id rank retriever = record {
  chunk_id = chunk_id;
  score = 1;
  rank = pos rank;
  retriever = retriever;
  evidence = none;
}

abbrev dense : List (SearchHit ℕ)
dense = hit "a" 1 "dense" ∷ hit "b" 2 "dense" ∷ []

abbrev sparse : List (SearchHit ℕ)
sparse = hit "b" 1 "bm25" ∷ []

abbrev out_hit : String → ℕ → ℕ → SearchHit ℕ
out_hit chunk_id score rank = record {
  chunk_id = chunk_id;
  score = score;
  rank = pos rank;
  retriever = "rrf";
  evidence = none;
}

abbrev fused : List (SearchHit ℕ)
fused = out_hit "b" 32522 1 ∷ out_hit "a" 16393 2 ∷ []

abbrev both : List (List (SearchHit ℕ))
both = dense ∷ sparse ∷ []

returned : reciprocal_rank_fusion fixed_point both (pos 60) none ≡ ok fused
unfolding reciprocal_rank_fusion str_leb ◌+ℤ◌
returned = refl

fused_score_iff_example : Mem {A = String × ℕ} ("b", 32522) (map entry fused) ↔ (
    fused_score fixed_point (pos 60) "b" none both (resolve_weights fixed_point both none)
    ≡ some 32522)
fused_score_iff_example = fused_score_iff fixed_point both (pos 60) none returned "b" 32522

fusion_order_example :
    IsSorted (by_score_then_id fixed_point) (map entry fused)
    × HasDistinctKeys (map entry fused)
    × IsNumbered 1 fused
fusion_order_example = fusion_order fixed_point both (pos 60) none returned

a_not_b : ◌≢◌ {A = String} "a" "b"
a_not_b = ground (arith, eq_iff "a" "b")

dense-IsRanking : IsRanking dense
dense-IsRanking = record { numbered = (refl, (refl, tt)); distinct = ((a_not_b, tt), (tt, tt)) }

sparse-IsRanking : IsRanking sparse
sparse-IsRanking = record { numbered = (refl, tt); distinct = (tt, tt) }

both_fit : All (All (Fits fixed_point (pos 60))) both
unfolding ◌+ℤ◌
both_fit = ((refl, (refl, tt)), ((refl, tt), tt))

fusion_returns_example :
    (out : List (SearchHit ℕ)) × (reciprocal_rank_fusion fixed_point both (pos 60) none ≡ ok out)
fusion_returns_example =
    fusion_returns fixed_point both (pos 60) none (omega arith) refl (refl, (refl, tt))
      (dense-IsRanking, (sparse-IsRanking, tt)) both_fit

fusion_checks_example :
    (pos 0 ≤ℤ pos 60)
    × (length (resolve_weights fixed_point both none) ≡ length both)
    × All IsRanking both
fusion_checks_example = fusion_checks fixed_point both (pos 60) none fused returned

abbrev hybrid : HybridRetriever fixed_point
hybrid = record {
  dense = λ _ _ _. ok dense;
  sparse = λ _ _ _. ok sparse;
  rrf_k = pos 60;
  weights = 1000000 ∷ 1000000 ∷ [];
}

abbrev any_document : SearchFilter
any_document = record {
  corpus_snapshot_id = "c";
  parse_snapshot_id = "p";
  chunk_strategy = "fixed-300-0";
  embedding_snapshot_id = "e";
  document_ids = [];
}

abbrev best : List (SearchHit ℕ)
best =
    record {
      chunk_id = "b";
      score = 32522;
      rank = pos 1;
      retriever = "hybrid-rrf";
      evidence = some (record {
        dense_rank = some (pos 2);
        sparse_rank = some (pos 1);
        dense_score = some 1;
        sparse_score = some 1;
        fused_score = 32522;
      });
    }
    ∷ []

search_best : search fixed_point hybrid "query" (pos 1) any_document ≡ ok best
unfolding search reciprocal_rank_fusion str_leb ◌+ℤ◌
search_best = refl

search_evidence_example :
    (dense' : List (SearchHit ℕ)) × (sparse' : List (SearchHit ℕ)) × (fused' : List (SearchHit ℕ))
    × (hybrid.dense "query" (pos (max 20 (4 * 1))) any_document ≡ ok dense')
    × (hybrid.sparse "query" (pos (max 20 (4 * 1))) any_document ≡ ok sparse')
    × (reciprocal_rank_fusion fixed_point (dense' ∷ sparse' ∷ []) hybrid.rrf_k (some hybrid.weights)
        ≡ ok fused')
    × (map entry best ≡ map entry (take 1 fused'))
    × IsNumbered 1 best
    × All (IsBacked fixed_point dense' sparse') best
search_evidence_example =
    search_evidence fixed_point hybrid "query" (pos 1) any_document search_best
