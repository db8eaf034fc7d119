-- ===== src/Chunking.antt =====
-- src/ragbench/chunking/models.py, the blocks of a normalized document and the chunks cut from them.
-- A text that is cut is the list of its code points.
pub mod Utf8
pub mod Tokenizer
pub mod Json
pub mod Fixed
pub mod Heading
use ragbench_kr_implementati.Prelude.{ℕ, Bool, true, false, ◌||◌, String, List, [], ◌∷◌, str_eq}
use ragbench_kr_implementati.Prelude.Int.{ℤ, pos, ltb_ℤ, leb_ℤ}
use ragbench_kr_implementati.Prelude.Result.{Result, ok, raise_if, value_error, ◌>>=◌, ◌>>◌}

-- A Python `str`, by its code points.
abbrev pub Text : Type 0
Text = List ℕ

pub record DocumentBlock : Type 0 where
  pub block_id : String
  pub document_id : String
  pub parse_snapshot_id : String
  pub source_sha256 : String
  pub page : ℤ
  pub section_path : List String
  pub block_kind : String
  pub content : Text
  pub source_content : Text
  pub source_element_indexes : List ℤ
  pub is_boilerplate : Bool

-- `DocumentBlock.__post_init__`
unfoldable pub new_block : DocumentBlock → Result DocumentBlock
new_block block = do
  raise_if (leb_ℤ block.page (pos 0)) (value_error "page must be positive")
  raise_if
      (str_eq block.block_id "" || str_eq block.document_id "" || str_eq block.parse_snapshot_id "")
      (value_error "block identity fields cannot be empty")
  ok block

pub record ChunkRecord : Type 0 where
  pub chunk_id : String
  pub document_id : String
  pub parse_snapshot_id : String
  pub strategy : String
  pub strategy_hash : String
  pub ordinal : ℤ
  pub page_start : ℤ
  pub page_end : ℤ
  pub section_path : List String
  pub content : Text
  pub token_count : ℤ
  pub token_start : ℤ
  pub token_end : ℤ
  pub source_block_ids : List String

-- `ChunkRecord.__post_init__`
unfoldable pub new_chunk : ChunkRecord → Result ChunkRecord
new_chunk chunk = do
  raise_if
      (ltb_ℤ chunk.ordinal (pos 0)
        || leb_ℤ chunk.page_start (pos 0)
        || ltb_ℤ chunk.page_end chunk.page_start)
      (value_error "invalid chunk ordinal or page range")
  raise_if
      (ltb_ℤ chunk.token_count (pos 0)
        || ltb_ℤ chunk.token_start (pos 0)
        || ltb_ℤ chunk.token_end chunk.token_start)
      (value_error "invalid token range")
  ok chunk
