-- ===== src/Chunking/Fixed/Sources.antt =====
-- What a chunk keeps of the blocks that its window overlaps.
use mathlib.Core.Path.{subst}
use ragbench_kr_implementati.Prelude.{
  ℕ, suc, ◌≡◌, ap, Bool, true, false, ◌&&◌, ◌||◌, List, [], ◌∷◌, map, some, arith, ltb, any,
  Bool-cases, inl, inr, ◌⊎◌, String,
}
use ragbench_kr_implementati.Prelude.Int.{pos, leb_ℤ, ltb_ℤ}
use ragbench_kr_implementati.Prelude.Result.{Result, ok, >>=-eq-ok, raise_if-eq-ok, ok-injective}
use ragbench_kr_implementati.Prelude.Assoc.{str_key, pair_key, contains}
use ragbench_kr_implementati.Prelude.Lookup.{or_left, or_right}
use ragbench_kr_implementati.Chunking.{DocumentBlock, ChunkRecord, new_chunk}
use ragbench_kr_implementati.Chunking.Tokenizer.{TokenWindow, get_elem?}
use ragbench_kr_implementati.Chunking.Json.{Object}
use ragbench_kr_implementati.Chunking.Fixed.{
  Span, FixedChunker, chunk_row, chunk_from, chunks_of, overlapping,
}
use ragbench_kr_implementati.Chunking.Fixed.Spans.{overlapping-contains}

-- Some record has the block among its sources.
abbrev pub IsKept : List ChunkRecord → String → Type 0
IsKept records id = any (λ (row : ChunkRecord). contains id row.source_block_ids) records ≡ true

-- What a record that was made satisfies.
abbrev pub IsChunk : ChunkRecord → Type 0
IsChunk chunk =
    (ltb_ℤ chunk.ordinal (pos 0) ≡ false)
    × (leb_ℤ chunk.page_start (pos 0) ≡ false)
    × (ltb_ℤ chunk.page_end chunk.page_start ≡ false)
    × (ltb_ℤ chunk.token_start (pos 0) ≡ false)
    × (ltb_ℤ chunk.token_end chunk.token_start ≡ false)

or_rest : (a b : Bool) → a ≡ false → (a || b) ≡ true → b ≡ true
or_rest a b h k = ground arith

three : (a b c : Bool) → (a || b || c) ≡ false → (a ≡ false) × (b ≡ false) × (c ≡ false)
three a b c h = (ground arith, ground arith, ground arith)

pub new_chunk-ok : (row made : ChunkRecord) → new_chunk row ≡ ok made → (row ≡ made) × IsChunk made
unfolding new_chunk
new_chunk-ok row made h =
    let (paged, rest) = raise_if-eq-ok _ _ _ h in
    let (counted, done) = raise_if-eq-ok _ _ _ rest in
    let (a, b, c) = three _ _ _ paged in
    let (d, e, f) = three _ _ _ counted in
    (ok-injective done, subst IsChunk (ok-injective done) (a, b, c, e, f))

module _ (canonical_json_hash : Object → String) (tokenizer_snapshot : List (String × String))
    (self : FixedChunker) (document parse_snapshot : String) where
  chunk_row-ids :
      (ordinal : ℕ) (window : TokenWindow) (source : DocumentBlock) (sources : List DocumentBlock)
      (chunk : ChunkRecord)
      → chunk_row canonical_json_hash tokenizer_snapshot self document parse_snapshot ordinal window
          source sources
        ≡ chunk
      → map (λ (item : DocumentBlock). item.block_id) (source ∷ sources) ≡ chunk.source_block_ids
  unfolding chunk_row
  chunk_row-ids ordinal window source sources chunk e =
      ap (λ (row : ChunkRecord). row.source_block_ids) e

  chunk_from-keeps :
      (ordinal : ℕ) (window : TokenWindow) (sources : List DocumentBlock)
      (rest : Result (List ChunkRecord)) (records : List ChunkRecord) (id : String)
      → chunk_from canonical_json_hash tokenizer_snapshot self document parse_snapshot ordinal
          window sources rest
        ≡ ok records
      → (contains id (map (λ (item : DocumentBlock). item.block_id) sources) ≡ true)
        ⊎ ((later : List ChunkRecord) → rest ≡ ok later → IsKept later id)
      → IsKept records id
  unfolding chunk_from contains
  chunk_from-keeps ordinal window [] rest records id h (inl found) = absurd (cc)
  chunk_from-keeps ordinal window [] rest records id h (inr f) = f records h
  chunk_from-keeps ordinal window (source ∷ sources) rest records id h k =
      let row =
        chunk_row canonical_json_hash tokenizer_snapshot self document parse_snapshot ordinal window
          source sources in
      let (chunk, made, after) = >>=-eq-ok (new_chunk row) _ h in
      let (later, same, done) = >>=-eq-ok rest _ after in
      let ids = chunk_row-ids ordinal window source sources chunk (new_chunk-ok row chunk made).0 in
      subst (λ (rows : List ChunkRecord). IsKept rows id) (ok-injective done)
        (elim k [
          | inl found ↦ or_left _ _ (subst (λ (l : List String). contains id l ≡ true) ids found)
          | inr f ↦ or_right _ _ (f later same)
        ])

  pub chunks_of-keeps :
      (spans : List Span) (ordinal i : ℕ) (windows : List TokenWindow) (records : List ChunkRecord)
      (span : Span)
      → chunks_of canonical_json_hash tokenizer_snapshot self document parse_snapshot spans ordinal
          windows
        ≡ ok records
      → get_elem? spans i ≡ some span
      → any
          (λ (window : TokenWindow).
            ltb window.char_start span.end && ltb span.start window.char_end)
          windows
        ≡ true
      → IsKept records span.block.block_id
  unfolding chunks_of
  chunks_of-keeps spans ordinal i [] records span h e k = absurd (cc)
  chunks_of-keeps spans ordinal i (window ∷ windows) records span h e k =
      chunk_from-keeps ordinal window (overlapping spans window.char_start window.char_end)
        (chunks_of canonical_json_hash tokenizer_snapshot self document parse_snapshot spans
          (suc ordinal) windows)
        records span.block.block_id h
        (elim (Bool-cases (ltb window.char_start span.end && ltb span.start window.char_end)) [
          | inl here ↦
              inl (overlapping-contains spans window.char_start window.char_end i span e here)
          | inr not_here ↦ inr (λ later same.
              chunks_of-keeps spans (suc ordinal) i windows later span same e
                (or_rest _ _ not_here k))
        ])
