-- ===== src/Chunking/Fixed.antt =====
-- src/ragbench/chunking/fixed.py. The tokenizer's two calls and the hash of an object are parameters.
pub mod Spans
pub mod Sources
pub mod Blocks
use Prim.Native.String.{◌++◌}
use mathlib.Core.List.{◌++◌ as append}
use ragbench_kr_implementati.Prelude.{
  ℕ, suc, ◌+◌, Bool, true, false, not, ◌&&◌, ◌||◌, String, List, [], ◌∷◌, map, length, filter_rows,
  if◌then◌else◌, ltb,
}
use ragbench_kr_implementati.Prelude.Int.{ℤ, pos, ◌+ℤ◌, ◌-ℤ◌, leb_ℤ, ltb_ℤ, eqb_ℤ, pos_part}
use ragbench_kr_implementati.Prelude.Decimal.{show_int}
use ragbench_kr_implementati.Prelude.Result.{
  Result, ok, err, raise_if, value_error, runtime_error, ◌>>=◌, ◌>>◌,
}
use ragbench_kr_implementati.Prelude.Assoc.{str_key, pair_key, to_set, distinct}
use ragbench_kr_implementati.Chunking.{Text, DocumentBlock, ChunkRecord, new_chunk}
use ragbench_kr_implementati.Chunking.Tokenizer.{TokenWindow, safe_token_windows}
use ragbench_kr_implementati.Chunking.Json.{
  Object, Value, text, characters, number, mapping, prefix, list_key,
}

pub record Span : Type 0 where
  pub start : ℕ
  pub end : ℕ
  pub block : DocumentBlock

unfoldable pub is_empty : Text → Bool
is_empty [] = true
is_empty (_ ∷ _) = false

-- The loop of `_source_text`. `started` tells whether there are parts yet.
unfoldable pub source_from : Bool → ℕ → List DocumentBlock → Text × List Span
unfolding is_empty
source_from started position [] = ([], [])
source_from started position (block ∷ blocks) =
    let skipped = source_from started position blocks in
    let start = if started then position + 2 else position in
    let end = start + length block.content in
    let rest = source_from true end blocks in
    let separator : Text = if started then 10 ∷ 10 ∷ [] else [] in
    let span : Span = record { start = start; end = end; block = block } in
    if block.is_boilerplate || is_empty block.content
    then skipped
    else (append separator (append block.content rest.0), span ∷ rest.1)

unfoldable pub source_text : List DocumentBlock → Text × List Span
unfolding source_from
source_text blocks = source_from false 0 blocks

unfoldable pub overlapping : List Span → ℕ → ℕ → List DocumentBlock
unfolding filter_rows
overlapping spans start end =
    map (λ (span : Span). span.block)
      (filter_rows (λ span. ltb start span.end && ltb span.start end) spans)

pub record FixedChunker : Type 0 where
  pub size : ℤ
  pub overlap : ℤ
  pub strategy : String
  pub strategy_hash : String

-- `min(pages)` and `max(pages)`, from the first page on.
abbrev pub least : ℤ → List ℤ → ℤ
least page [] = page
least page (next ∷ pages) = least (if ltb_ℤ next page then next else page) pages

abbrev pub greatest : ℤ → List ℤ → ℤ
greatest page [] = page
greatest page (next ∷ pages) = greatest (if ltb_ℤ page next then next else page) pages

-- `next(iter(sections)) if len(sections) == 1 else ()`
abbrev pub only_section : List (List String) → List String
only_section [] = []
only_section (section ∷ []) = section
only_section (_ ∷ _ ∷ _) = []

abbrev pub identity_of : DocumentBlock → (String × String) × String
identity_of item = ((item.document_id, item.parse_snapshot_id), item.source_sha256)

-- `right.token_start > left.token_end or right.ordinal != left.ordinal + 1`, of two neighbours.
unfoldable pub has_gap : List ChunkRecord → Bool
has_gap [] = false
has_gap (left ∷ records) = elim records [
  | [] ↦ false
  | right ∷ _ ↦
      ltb_ℤ left.token_end right.token_start
      || not (eqb_ℤ right.ordinal (left.ordinal +ℤ pos 1))
      || has_gap records
]

abbrev pub last_end : ChunkRecord → List ChunkRecord → ℤ
last_end record_ [] = record_.token_end
last_end record_ (next ∷ records) = last_end next records

-- The checks on the finished records.
unfoldable pub check_records : ℕ → List ChunkRecord → Result (Unit {0})
unfolding has_gap distinct
check_records total_tokens [] = ok tt
check_records total_tokens (first ∷ records) = do
  raise_if
      (not (eqb_ℤ first.token_start (pos 0))
        || not (eqb_ℤ (last_end first records) (pos total_tokens)))
      (runtime_error "chunk windows do not cover the normalized document")
  raise_if (has_gap (first ∷ records))
      (runtime_error "chunk windows contain a gap or non-monotonic ordinal")
  raise_if (not (distinct (map (λ (item : ChunkRecord). item.chunk_id) (first ∷ records))))
      (runtime_error "chunk identifiers are not unique")

module _ (canonical_json_hash : Object → String) (tokenizer_snapshot : List (String × String)) where
  -- `FixedChunker.__init__`
  unfoldable pub new_fixed : ℤ → ℤ → Result FixedChunker
  unfolding prefix show_int
  new_fixed size overlap = do
    raise_if (leb_ℤ size (pos 0) || ltb_ℤ overlap (pos 0) || leb_ℤ size overlap)
        (value_error "size must be positive and greater than non-negative overlap")
    ok (record {
      size = size;
      overlap = overlap;
      strategy = "fixed-" ++ show_int size ++ "-" ++ show_int overlap;
      strategy_hash = prefix 16 (
          canonical_json_hash (
            ("strategy", text "fixed")
            ∷ ("size", number size)
            ∷ ("overlap", number overlap)
            ∷ ("tokenizer", mapping tokenizer_snapshot)
            ∷ []));
    })

  -- The fields of a window's record, from the blocks that it overlaps.
  unfoldable pub chunk_row :
      FixedChunker
      → String
      → String
      → ℕ
      → TokenWindow
      → DocumentBlock
      → List DocumentBlock
      → ChunkRecord
  unfolding to_set prefix
  chunk_row self document parse_snapshot ordinal window source sources =
      let identity = prefix 24 (
        canonical_json_hash (
          ("document", text document)
          ∷ ("ordinal", number (pos ordinal))
          ∷ ("token_start", number (pos window.token_start))
          ∷ ("token_end", number (pos window.token_end))
          ∷ ("content", characters window.content)
          ∷ [])) in
      let pages = map (λ (item : DocumentBlock). item.page) sources in
      let sections =
        to_set (map (λ (item : DocumentBlock). item.section_path) (source ∷ sources)) in
      record {
        chunk_id = parse_snapshot ++ ":" ++ self.strategy_hash ++ ":" ++ identity;
        document_id = document;
        parse_snapshot_id = parse_snapshot;
        strategy = self.strategy;
        strategy_hash = self.strategy_hash;
        ordinal = pos ordinal;
        page_start = least source.page pages;
        page_end = greatest source.page pages;
        section_path = only_section sections;
        content = window.content;
        token_count = pos window.token_end -ℤ pos window.token_start;
        token_start = pos window.token_start;
        token_end = pos window.token_end;
        source_block_ids = map (λ (item : DocumentBlock). item.block_id) (source ∷ sources);
      }

  -- A window with these sources, before the records of the windows after it. One that overlaps no
  -- block is left out.
  unfoldable pub chunk_from :
      FixedChunker
      → String
      → String
      → ℕ
      → TokenWindow
      → List DocumentBlock
      → Result (List ChunkRecord)
      → Result (List ChunkRecord)
  unfolding chunk_row new_chunk
  chunk_from self document parse_snapshot ordinal window [] rest = rest
  chunk_from self document parse_snapshot ordinal window (source ∷ sources) rest = do
    chunk ← new_chunk (chunk_row self document parse_snapshot ordinal window source sources)
    records ← rest
    ok (chunk ∷ records)

  -- The loop over the windows.
  unfoldable pub chunks_of :
      FixedChunker → String → String → List Span → ℕ → List TokenWindow → Result (List ChunkRecord)
  unfolding overlapping chunk_from
  chunks_of self document parse_snapshot spans ordinal [] = ok []
  chunks_of self document parse_snapshot spans ordinal (window ∷ windows) =
      chunk_from self document parse_snapshot ordinal window
        (overlapping spans window.char_start window.char_end)
        (chunks_of self document parse_snapshot spans (suc ordinal) windows)

  module _ (encode : List ℕ → List ℕ) (token_bytes : ℕ → List ℕ) where
    -- What `split` does once the blocks are known to share their identity.
    unfoldable pub split_document :
        FixedChunker → String → String → List DocumentBlock → Result (List ChunkRecord)
    unfolding source_text chunks_of check_records safe_token_windows
    split_document self document parse_snapshot blocks = do
      let (source, spans) = source_text blocks
      windows ← safe_token_windows encode token_bytes source self.size self.overlap
      records ← chunks_of self document parse_snapshot spans 0 windows
      check_records (length (encode source)) records
      ok records

    -- The identities of the blocks have to be one.
    unfoldable pub split_one :
        FixedChunker
        → List DocumentBlock
        → List ((String × String) × String)
        → Result (List ChunkRecord)
    unfolding split_document
    split_one self blocks (((document, parse_snapshot), source) ∷ []) =
        split_document self document parse_snapshot blocks
    split_one self blocks [] =
        err (value_error "blocks must belong to one document and parse snapshot")
    split_one self blocks (_ ∷ _ ∷ _) =
        err (value_error "blocks must belong to one document and parse snapshot")

    -- `FixedChunker.split`
    unfoldable pub split : FixedChunker → List DocumentBlock → Result (List ChunkRecord)
    unfolding split_one to_set
    split self [] = ok []
    split self (block ∷ blocks) =
        split_one self (block ∷ blocks) (to_set (map identity_of (block ∷ blocks)))
