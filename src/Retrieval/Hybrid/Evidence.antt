-- ===== src/Retrieval/Hybrid/Evidence.antt =====
-- The evidence on a hybrid hit is that of the branches' own rankings.
use mathlib.Core.Path.{subst}
use ragbench_kr_implementati.Prelude.{
  ℕ, suc, ◌≡◌, ◌≢◌, inl, inr, refl, ap, sym, ◌∙◌, Option, none, some, String, List, [], ◌∷◌, map,
  All, AllPairs, take, max, ◌*◌, Bool-cases, str_eq, eq_iff,
}
use ragbench_kr_implementati.Prelude.Int.{ℤ, pos, pos_part, leb_ℤ}
use ragbench_kr_implementati.Prelude.Float.{Float}
use ragbench_kr_implementati.Prelude.Result.{ok, raise_if-eq-ok, >>=-eq-ok, ok-injective}
use ragbench_kr_implementati.Prelude.Assoc.{str_key, lookup, put, lookup-put}
use ragbench_kr_implementati.Retrieval.{SearchFilter, SearchHit}
use ragbench_kr_implementati.Retrieval.Rrf.{reciprocal_rank_fusion}
use ragbench_kr_implementati.Retrieval.Rrf.Scores.{find_hit, find_hit-absent}
use ragbench_kr_implementati.Retrieval.Rrf.Answers.{IsNumbered, entry}
use ragbench_kr_implementati.Retrieval.Rrf.Totality.{fusion_checks}
use ragbench_kr_implementati.Retrieval.Hybrid.{
  HybridRetriever, evidence_of, attach_evidence, index_hits, search,
}

abbrev or_else : {A : Type 0} → Option A → Option A → Option A
or_else none b = b
or_else (some a) b = some a

-- In a ranking without repeated ids the index finds the hit of an id.
lookup-index_hits :
    {F : Type 0} (id : String) (by_id : List (String × SearchHit F)) (hits : List (SearchHit F))
    → AllPairs (λ a b. a.chunk_id ≢ b.chunk_id) hits
    → lookup id (index_hits by_id hits) ≡ or_else (find_hit id hits) (lookup id by_id)
unfolding index_hits find_hit
lookup-index_hits id by_id [] d = refl
lookup-index_hits id by_id (hit ∷ hits) d =
    let ih = lookup-index_hits id (put hit.chunk_id hit by_id) hits d.1 in
    elim (Bool-cases (str_eq hit.chunk_id id)) [
      | inl e ↦
          let gone = find_hit-absent id hits (rw ((eq_iff hit.chunk_id id).0 e) at d.0) in
          rw e (rw (gone, lookup-put, e) at ih)
      | inr e ↦ rw e (rw (lookup-put, e) at ih)
    ]

or_else-none : {A : Type 0} (a : Option A) → or_else a none ≡ a
or_else-none none = refl
or_else-none (some a) = refl

module _ (float : Float) where
  open float use {F}

  -- What a hit should carry: what the two branches say of its id.
  abbrev pub IsBacked : List (SearchHit F) → List (SearchHit F) → SearchHit F → Type 0
  IsBacked dense sparse hit =
      hit.evidence
      ≡ some
          (evidence_of float (find_hit hit.chunk_id dense) (find_hit hit.chunk_id sparse) hit.score)

  index_found :
      (hits : List (SearchHit F)) (id : String)
      → AllPairs (λ a b. a.chunk_id ≢ b.chunk_id) hits
      → lookup id (index_hits [] hits) ≡ find_hit id hits
  unfolding lookup
  index_found hits id d = lookup-index_hits id [] hits d ∙ or_else-none (find_hit id hits)

  attach_evidence-IsBacked :
      (dense sparse : List (SearchHit F)) (rank : ℕ) (fused : List (SearchHit F))
      → AllPairs (λ a b. a.chunk_id ≢ b.chunk_id) dense
      → AllPairs (λ a b. a.chunk_id ≢ b.chunk_id) sparse
      → All
          (IsBacked dense sparse)
          (attach_evidence float (index_hits [] dense) (index_hits [] sparse) rank fused)
  unfolding attach_evidence
  attach_evidence-IsBacked dense sparse rank [] d s = tt
  attach_evidence-IsBacked dense sparse rank (hit ∷ fused) d s = (
    rw (index_found dense hit.chunk_id d, index_found sparse hit.chunk_id s),
    attach_evidence-IsBacked dense sparse (suc rank) fused d s,
  )

  attach_evidence-IsNumbered :
      (dense sparse : List (String × SearchHit F)) (rank : ℕ) (fused : List (SearchHit F))
      → IsNumbered rank (attach_evidence float dense sparse rank fused)
  unfolding attach_evidence
  attach_evidence-IsNumbered dense sparse rank [] = tt
  attach_evidence-IsNumbered dense sparse rank (hit ∷ fused) =
      (refl, attach_evidence-IsNumbered dense sparse (suc rank) fused)

  map-attach_evidence :
      (dense sparse : List (String × SearchHit F)) (rank : ℕ) (fused : List (SearchHit F))
      → map entry (attach_evidence float dense sparse rank fused) ≡ map entry fused
  unfolding attach_evidence
  map-attach_evidence dense sparse rank [] = refl
  map-attach_evidence dense sparse rank (hit ∷ fused) =
      ap (λ rest. entry hit ∷ rest) (map-attach_evidence dense sparse (suc rank) fused)

  -- A search that returns has asked both branches for the same over-fetch, `max(20, 4 * top_k)`, and
  -- answers with the first `top_k` ids and scores of their fusion, numbered from 1; each hit carries
  -- the rank and the score that each branch gave its id, and none where a branch did not return it.
  pub search_evidence :
      (self : HybridRetriever float) (query : String) (top_k : ℤ) (filter : SearchFilter)
      {out : List (SearchHit F)}
      → search float self query top_k filter ≡ ok out
      → (dense : List (SearchHit F)) × (sparse : List (SearchHit F)) × (fused : List (SearchHit F))
        × (self.dense query (pos (max 20 (4 * pos_part top_k))) filter ≡ ok dense)
        × (self.sparse query (pos (max 20 (4 * pos_part top_k))) filter ≡ ok sparse)
        × (reciprocal_rank_fusion float (dense ∷ sparse ∷ []) self.rrf_k (some self.weights)
            ≡ ok fused)
        × (map entry out ≡ map entry (take (pos_part top_k) fused))
        × IsNumbered 1 out
        × All (IsBacked dense sparse) out
  unfolding search
  search_evidence self query top_k filter {out} returned =
      let branch_k = pos (max 20 (4 * pos_part top_k)) in
      let (_, asked) = raise_if-eq-ok (leb_ℤ top_k (pos 0)) _ _ returned in
      let (dense, from_dense, after_dense) = >>=-eq-ok (self.dense query branch_k filter) _ asked in
      let (sparse, from_sparse, after_sparse) =
        >>=-eq-ok (self.sparse query branch_k filter) _ after_dense in
      let (fused, from_fusion, last) =
        >>=-eq-ok
          (reciprocal_rank_fusion float (dense ∷ sparse ∷ []) self.rrf_k (some self.weights)) _
          after_sparse in
      let (_, _, ranked) =
        fusion_checks float (dense ∷ sparse ∷ []) self.rrf_k (some self.weights) fused
          from_fusion in
      let same = ok-injective last in
      let kept = take (pos_part top_k) fused in
      (
        dense,
        sparse,
        fused,
        from_dense,
        from_sparse,
        from_fusion,
        ap (map entry) (sym same) ∙ map-attach_evidence _ _ 1 kept,
        subst (IsNumbered 1) same (attach_evidence-IsNumbered _ _ 1 kept),
        subst (All (IsBacked dense sparse)) same
            (attach_evidence-IsBacked dense sparse 1 kept ranked.0.distinct ranked.1.0.distinct),
      )
