-- ===== src/Chunking/Heading/Chunks.antt =====
-- The chunks of a document cut by its headings: they keep its blocks and are numbered in order.
use ragbench_kr_implementati.Prelude.{
  ℕ, ◌≡◌, true, ◌&&◌, not, List, [], All, All-filter_rows, String, filter_rows,
}
use ragbench_kr_implementati.Prelude.Result.{ok}
use ragbench_kr_implementati.Prelude.Assoc.{str_key}
use ragbench_kr_implementati.Chunking.{DocumentBlock, ChunkRecord}
use ragbench_kr_implementati.Chunking.Utf8.RoundTrip.{IsText}
use ragbench_kr_implementati.Chunking.Json.{Object}
use ragbench_kr_implementati.Chunking.Fixed.{is_empty}
use ragbench_kr_implementati.Chunking.Fixed.Spans.{is_usable}
use ragbench_kr_implementati.Chunking.Fixed.Sources.{IsKept}
use ragbench_kr_implementati.Chunking.Heading.{HeadingAwareChunker, groups_of, split_headings}
use ragbench_kr_implementati.Chunking.Heading.Grouping.{
  groups_of-All, All-groups_of, unfilter, usable-IsKept,
}
use ragbench_kr_implementati.Chunking.Heading.Numbering.{IsNumbered, split_groups-ok}

module _ (canonical_json_hash : Object → String) (tokenizer_snapshot : List (String × String))
    (encode : List ℕ → List ℕ) (token_bytes : ℕ → List ℕ)
    (tokens_of_text : (text : List ℕ) → encode text ≡ [] → text ≡ []) where
  -- Of a tokenizer that gives no tokens only for the empty text: the chunks that are returned are numbered
  -- 0, 1, 2 and so on, each is a valid record, and every block with content that is not boilerplate is a
  -- source of one of them.
  pub split_headings_keeps_blocks :
      (self : HeadingAwareChunker) (blocks : List DocumentBlock) (records : List ChunkRecord)
      → All (λ (block : DocumentBlock). IsText block.content) blocks
      → split_headings canonical_json_hash tokenizer_snapshot encode token_bytes self blocks
        ≡ ok records
      → IsNumbered 0 records
        × All
            (λ (block : DocumentBlock). is_usable block ≡ true → IsKept records block.block_id)
            blocks
  unfolding split_headings
  split_headings_keeps_blocks self blocks records texts h =
      let usable =
        filter_rows
          (λ (item : DocumentBlock). not item.is_boilerplate && not (is_empty item.content))
          blocks in
      let (numbered, kept) =
        split_groups-ok canonical_json_hash tokenizer_snapshot self encode token_bytes
          tokens_of_text 0 0 (groups_of usable) records
          (groups_of-All (λ (block : DocumentBlock). IsText block.content) usable
            (All-filter_rows _ _ blocks texts))
          h in
      let all = unfilter _ _ blocks (
        All-groups_of
          (λ (block : DocumentBlock). is_usable block ≡ true → IsKept records block.block_id) usable
          kept) in
      (numbered, usable-IsKept records blocks all)
