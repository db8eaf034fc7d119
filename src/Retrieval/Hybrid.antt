-- ===== src/Retrieval/Hybrid.antt =====
-- src/ragbench/retrieval/service.py, `HybridRetriever`. The two branches are retrievers of another
-- component, so they are arguments; `asyncio.gather` runs both, and if both raise the model raises
-- the dense branch's error.
pub mod Evidence
use ragbench_kr_implementati.Prelude.{
  ℕ, zero, suc, ◌*◌, Option, none, some, Bool, not, String, List, [], ◌∷◌, ◌==◌, length, any, take,
  max,
}
use ragbench_kr_implementati.Prelude.Int.{ℤ, pos, pos_part, ltb_ℤ, leb_ℤ}
use ragbench_kr_implementati.Prelude.Float.{Float}
use ragbench_kr_implementati.Prelude.Result.{Result, ok, err, raise_if, value_error, ◌>>=◌, ◌>>◌}
use ragbench_kr_implementati.Prelude.Assoc.{str_key, lookup, put}
use ragbench_kr_implementati.Retrieval.{SearchFilter, SearchHit, RetrievalEvidence}
use ragbench_kr_implementati.Retrieval.Rrf.{bad_weight, reciprocal_rank_fusion}

-- `{hit.chunk_id: hit for hit in hits}`: a later hit of one id replaces an earlier one.
unfoldable pub index_hits :
    {F : Type 0} → List (String × SearchHit F) → List (SearchHit F) → List (String × SearchHit F)
index_hits by_id [] = by_id
index_hits by_id (hit ∷ hits) = index_hits (put hit.chunk_id hit by_id) hits

abbrev pub rank_of : {F : Type 0} → Option (SearchHit F) → Option ℤ
rank_of none = none
rank_of (some hit) = some hit.rank

abbrev pub score_of : {F : Type 0} → Option (SearchHit F) → Option F
score_of none = none
score_of (some hit) = some hit.score

module _ (float : Float) where
  open float use {F}

  abbrev pub Retriever : Type 0
  Retriever = String → ℤ → SearchFilter → Result (List (SearchHit F))

  pub record HybridRetriever : Type 0 where
    pub dense : Retriever
    pub sparse : Retriever
    pub rrf_k : ℤ
    pub weights : List F

  -- `__init__`.
  unfoldable pub new_hybrid : Retriever → Retriever → ℤ → List F → Result HybridRetriever
  new_hybrid dense sparse rrf_k weights = do
    raise_if (ltb_ℤ rrf_k (pos 0)) (value_error "rrf_k must be a nonnegative integer")
    raise_if (not (length weights == 2))
        (value_error "hybrid weights must contain dense and sparse values")
    raise_if (any (bad_weight float) weights)
        (value_error "hybrid weights must be finite and positive")
    ok (record { dense = dense; sparse = sparse; rrf_k = rrf_k; weights = weights })

  -- The evidence that one fused hit carries.
  abbrev pub evidence_of : Option (SearchHit F) → Option (SearchHit F) → F → RetrievalEvidence F
  evidence_of dense sparse score = record {
    dense_rank = rank_of dense;
    sparse_rank = rank_of sparse;
    dense_score = score_of dense;
    sparse_score = score_of sparse;
    fused_score = score;
  }

  unfoldable pub attach_evidence :
      List (String × SearchHit F)
      → List (String × SearchHit F)
      → ℕ
      → List (SearchHit F)
      → List (SearchHit F)
  attach_evidence dense_by_id sparse_by_id rank [] = []
  attach_evidence dense_by_id sparse_by_id rank (hit ∷ fused) =
      record {
        chunk_id = hit.chunk_id;
        score = hit.score;
        rank = pos rank;
        retriever = "hybrid-rrf";
        evidence = some (
            evidence_of (lookup hit.chunk_id dense_by_id) (lookup hit.chunk_id sparse_by_id)
              hit.score);
      }
      ∷ attach_evidence dense_by_id sparse_by_id (suc rank) fused

  unfoldable pub search : HybridRetriever → String → ℤ → SearchFilter → Result (List (SearchHit F))
  unfolding attach_evidence index_hits
  search self query top_k filter = do
    raise_if (leb_ℤ top_k (pos 0)) (value_error "top_k must be positive")
    let branch_k = pos (max 20 (4 * pos_part top_k))
    dense_hits ← self.dense query branch_k filter
    sparse_hits ← self.sparse query branch_k filter
    fused ←
        reciprocal_rank_fusion float (dense_hits ∷ sparse_hits ∷ []) self.rrf_k (some self.weights)
    ok (
        attach_evidence (index_hits [] dense_hits) (index_hits [] sparse_hits) 1
          (take (pos_part top_k) fused))
