-- ===== src/Retrieval.antt =====
-- src/ragbench/retrieval/base.py, the records that retrievers exchange. A rank is a Python int.
pub mod Rrf
pub mod Hybrid
use ragbench_kr_implementati.Prelude.{String, Option, List, [], ◌∷◌, any}
use ragbench_kr_implementati.Prelude.Text.{is_blank}
use ragbench_kr_implementati.Prelude.Result.{Result, ok, raise_if, value_error, ◌>>=◌, ◌>>◌}
use ragbench_kr_implementati.Prelude.Sorting.{ascending_str, sorted}
use ragbench_kr_implementati.Prelude.Assoc.{str_key, to_set}
use ragbench_kr_implementati.Prelude.Int.{ℤ}

pub record SearchFilter : Type 0 where
  pub corpus_snapshot_id : String
  pub parse_snapshot_id : String
  pub chunk_strategy : String
  pub embedding_snapshot_id : String
  pub document_ids : List String

-- `SearchFilter(...)`, with its `__post_init__`: the document ids become a sorted tuple without repeats.
unfoldable pub new_filter : String → String → String → String → List String → Result SearchFilter
unfolding is_blank sorted to_set
new_filter corpus_snapshot_id parse_snapshot_id chunk_strategy embedding_snapshot_id document_ids =
    do
      raise_if
          (any is_blank
            (corpus_snapshot_id ∷ parse_snapshot_id ∷ chunk_strategy ∷ embedding_snapshot_id ∷ []))
          (value_error "search filter snapshot identity cannot be blank")
      raise_if (any is_blank document_ids)
          (value_error "search filter document identity cannot be blank")
      ok (record {
        corpus_snapshot_id = corpus_snapshot_id;
        parse_snapshot_id = parse_snapshot_id;
        chunk_strategy = chunk_strategy;
        embedding_snapshot_id = embedding_snapshot_id;
        document_ids = sorted ascending_str (to_set document_ids);
      })

pub record RetrievalEvidence (F : Type 0) : Type 0 where
  pub dense_rank : Option ℤ
  pub sparse_rank : Option ℤ
  pub dense_score : Option F
  pub sparse_score : Option F
  pub fused_score : F

pub record SearchHit (F : Type 0) : Type 0 where
  pub chunk_id : String
  pub score : F
  pub rank : ℤ
  pub retriever : String
  pub evidence : Option (RetrievalEvidence F)
