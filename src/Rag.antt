-- ===== src/Rag.antt =====
-- src/ragbench/rag/context.py and citations.py, the records that retrieval, context and answers exchange.
pub mod Serialize
pub mod Context
pub mod Citations
pub mod Parsing
pub mod Prompts
pub mod Service
use ragbench_kr_implementati.Prelude.{String, List, ℕ, Bool}
use ragbench_kr_implementati.Prelude.Int.{ℤ}
use ragbench_kr_implementati.Retrieval.{SearchHit}

pub record RetrievedChunk (F : Type 0) : Type 0 where
  pub hit : SearchHit F
  pub document_id : String
  pub document_title : String
  pub page_start : ℤ
  pub page_end : ℤ
  pub section_path : List String
  pub content : String

pub record ContextItem (F : Type 0) : Type 0 where
  pub citation_id : String
  pub chunk_id : String
  pub document_id : String
  pub document_title : String
  pub page_start : ℤ
  pub page_end : ℤ
  pub section_path : List String
  pub content : String
  pub retrieval_rank : ℤ
  pub retrieval_score : F
  pub retriever : String
  pub serialized : String
  pub token_count : ℕ

pub record ContextBundle (F : Type 0) : Type 0 where
  pub items : List (ContextItem F)
  pub text : String
  pub token_count : ℕ
  pub token_budget : ℤ
  pub duplicate_chunk_ids : List String
  pub truncated_chunk_ids : List String

pub record GeneratedAnswer : Type 0 where
  pub answer : String
  pub citations : List String
  pub abstained : Bool

pub record ResolvedCitation : Type 0 where
  pub citation_id : String
  pub chunk_id : String
  pub document_id : String
  pub document_title : String
  pub page_start : ℤ
  pub page_end : ℤ
  pub section_path : List String
