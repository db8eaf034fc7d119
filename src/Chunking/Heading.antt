-- ===== src/Chunking/Heading.antt =====
-- src/ragbench/chunking/heading.py: fixed windows within each run of blocks of one section.
pub mod Grouping
pub mod Numbering
pub mod Chunks
use Prim.Native.String.{◌++◌}
use mathlib.Core.List.{◌++◌ as append}
use ragbench_kr_implementati.Prelude.{
  ℕ, suc, ◌+◌, Bool, true, false, not, ◌&&◌, ◌||◌, String, List, [], ◌∷◌, map, length, filter_rows,
  if◌then◌else◌,
}
use ragbench_kr_implementati.Prelude.Int.{ℤ, pos, ◌+ℤ◌, leb_ℤ, ltb_ℤ}
use ragbench_kr_implementati.Prelude.Decimal.{show_int}
use ragbench_kr_implementati.Prelude.Result.{Result, ok, err, raise_if, value_error, ◌>>=◌, ◌>>◌}
use ragbench_kr_implementati.Prelude.Assoc.{str_key}
use ragbench_kr_implementati.Chunking.{Text, DocumentBlock, ChunkRecord, new_chunk}
use ragbench_kr_implementati.Chunking.Fixed.{FixedChunker, is_empty, new_fixed, split}
use ragbench_kr_implementati.Chunking.Json.{
  Object, Value, text, texts, characters, number, mapping, prefix, eq_list,
}

pub record HeadingAwareChunker : Type 0 where
  pub target_size : ℤ
  pub overlap : ℤ
  pub strategy : String
  pub strategy_hash : String

-- A run of blocks of one section: the first and the others.
pub record Group : Type 0 where
  pub first : DocumentBlock
  pub others : List DocumentBlock

abbrev pub blocks_of : Group → List DocumentBlock
blocks_of group = group.first ∷ group.others

-- The loop that makes the groups, with the last group so far.
unfoldable pub groups_from : DocumentBlock → List DocumentBlock → List DocumentBlock → List Group
groups_from first others [] = record { first = first; others = others } ∷ []
groups_from first others (block ∷ blocks) = elim (eq_list first.section_path block.section_path) [
  | true ↦ groups_from first (append others (block ∷ [])) blocks
  | false ↦ record { first = first; others = others } ∷ groups_from block [] blocks
]

unfoldable pub groups_of : List DocumentBlock → List Group
unfolding groups_from
groups_of [] = []
groups_of (block ∷ blocks) = groups_from block [] blocks

-- `"\n\n".join(block.content for block in group)`
abbrev pub join_contents : DocumentBlock → List DocumentBlock → Text
join_contents block [] = block.content
join_contents block (next ∷ blocks) = append block.content (10 ∷ 10 ∷ join_contents next blocks)

module _ (canonical_json_hash : Object → String) (tokenizer_snapshot : List (String × String)) where
  -- `HeadingAwareChunker.__init__`
  unfoldable pub new_heading : ℤ → ℤ → Result HeadingAwareChunker
  unfolding prefix show_int
  new_heading target_size overlap = do
    raise_if (leb_ℤ target_size (pos 0) || ltb_ℤ overlap (pos 0) || leb_ℤ target_size overlap)
        (value_error "target_size must be positive and greater than overlap")
    ok (record {
      target_size = target_size;
      overlap = overlap;
      strategy = "heading-" ++ show_int target_size ++ "-" ++ show_int overlap;
      strategy_hash = prefix 16 (
          canonical_json_hash (
            ("strategy", text "heading")
            ∷ ("target_size", number target_size)
            ∷ ("overlap", number overlap)
            ∷ ("tokenizer", mapping tokenizer_snapshot)
            ∷ []));
    })

  -- A candidate's record in the output, numbered and moved to the section's tokens.
  unfoldable pub relabelled : HeadingAwareChunker → List String → ℕ → ℕ → ChunkRecord → ChunkRecord
  unfolding prefix
  relabelled self section_path token_base ordinal candidate =
      let token_start = pos token_base +ℤ candidate.token_start in
      let token_end = pos token_base +ℤ candidate.token_end in
      let identity = prefix 24 (
        canonical_json_hash (
          ("document", text candidate.document_id)
          ∷ ("ordinal", number (pos ordinal))
          ∷ ("token_start", number token_start)
          ∷ ("token_end", number token_end)
          ∷ ("content", characters candidate.content)
          ∷ ("blocks", texts candidate.source_block_ids)
          ∷ [])) in
      record candidate {
        chunk_id = candidate.parse_snapshot_id ++ ":" ++ self.strategy_hash ++ ":" ++ identity;
        strategy = self.strategy;
        strategy_hash = self.strategy_hash;
        ordinal = pos ordinal;
        section_path = section_path;
        token_start = token_start;
        token_end = token_end;
      }

  -- The loop over the candidates of a section.
  unfoldable pub relabel_all :
      HeadingAwareChunker → List String → ℕ → ℕ → List ChunkRecord → Result (List ChunkRecord)
  unfolding relabelled new_chunk
  relabel_all self section_path token_base ordinal [] = ok []
  relabel_all self section_path token_base ordinal (candidate ∷ candidates) = do
    chunk ← new_chunk (relabelled self section_path token_base ordinal candidate)
    chunks ← relabel_all self section_path token_base (suc ordinal) candidates
    ok (chunk ∷ chunks)

  module _ (encode : List ℕ → List ℕ) (token_bytes : ℕ → List ℕ) where
    -- The loop over the sections, with the length of the output and the tokens so far.
    unfoldable pub split_groups :
        HeadingAwareChunker → ℕ → ℕ → List Group → Result (List ChunkRecord)
    unfolding new_fixed split relabel_all
    split_groups self ordinal token_base [] = ok []
    split_groups self ordinal token_base (group ∷ groups) = do
      let section_text = join_contents group.first group.others
      fixed ← new_fixed canonical_json_hash tokenizer_snapshot self.target_size self.overlap
      candidates ←
          split canonical_json_hash tokenizer_snapshot encode token_bytes fixed (blocks_of group)
      chunks ← relabel_all self group.first.section_path token_base ordinal candidates
      rest ←
          split_groups self (ordinal + length candidates)
            (token_base + length (encode section_text)) groups
      ok (append chunks rest)

    -- `HeadingAwareChunker.split`
    unfoldable pub split_headings :
        HeadingAwareChunker → List DocumentBlock → Result (List ChunkRecord)
    unfolding split_groups groups_of filter_rows is_empty
    split_headings self blocks = split_groups self 0 0 (
        groups_of (
          filter_rows
            (λ (item : DocumentBlock). not item.is_boilerplate && not (is_empty item.content))
            blocks))
