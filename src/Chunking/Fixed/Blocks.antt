-- ===== src/Chunking/Fixed/Blocks.antt =====
-- The chunks of a document keep its blocks: each block that is cut is a source of some chunk.
use mathlib.Core.Path.{subst}
use ragbench_kr_implementati.Prelude.{
  ℕ, zero, suc, ◌+◌, ◌<◌, ◌≡◌, refl, sym, ap, ◌∙◌, Bool, true, false, ◌&&◌, ◌||◌, List, [], ◌∷◌,
  map, some, arith, ltb, length, All, All-map, All-append, any, Bool-cases, inl, inr, if◌then◌else◌,
  String,
}
use ragbench_kr_implementati.Prelude.Int.{ℤ, pos, negsuc, leb_ℤ, ltb_ℤ}
use ragbench_kr_implementati.Prelude.Result.{ok, >>=-eq-ok, raise_if-eq-ok, ok-injective}
use ragbench_kr_implementati.Prelude.Assoc.{str_key, pair_key, to_set}
use ragbench_kr_implementati.Chunking.{DocumentBlock, ChunkRecord}
use ragbench_kr_implementati.Chunking.Utf8.RoundTrip.{IsText}
use ragbench_kr_implementati.Chunking.Tokenizer.{TokenWindow, get_elem?, safe_token_windows}
use ragbench_kr_implementati.Chunking.Tokenizer.Windows.{returned-Covers}
use ragbench_kr_implementati.Chunking.Json.{Object}
use ragbench_kr_implementati.Chunking.Fixed.{
  Span, FixedChunker, chunks_of, source_text, source_from, check_records, split_document, split_one,
  split, new_fixed, is_empty, identity_of,
}
use ragbench_kr_implementati.Chunking.Fixed.Spans.{
  is_usable, IsWithin, source_from-IsWithin, All-source_from, Covers-overlaps,
}
use ragbench_kr_implementati.Chunking.Fixed.Sources.{IsKept, chunks_of-keeps}

All-by_index {ℓ κ} :
    {A : Type ℓ} (P : A → Type κ) (xs : List A)
    → ((i : ℕ) (x : A) → get_elem? xs i ≡ some x → P x)
    → All P xs
All-by_index P [] f = tt
All-by_index P (x ∷ xs) f = (f 0 x refl, All-by_index P xs (λ i y e. f (suc i) y e))

All-get_elem? {ℓ κ} :
    {A : Type ℓ} (P : A → Type κ) (xs : List A) (i : ℕ) (x : A)
    → All P xs
    → get_elem? xs i ≡ some x
    → P x
All-get_elem? P [] i x h e = absurd (cc)
All-get_elem? P (y ∷ xs) zero x h e = let same : y ≡ x = cc in subst P same h.0
All-get_elem? P (y ∷ xs) (suc i) x h e = All-get_elem? P xs i x h.1 e

source_from-IsText :
    (started : Bool) (position : ℕ) (blocks : List DocumentBlock)
    → All (λ (block : DocumentBlock). IsText block.content) blocks
    → IsText (source_from started position blocks).0
unfolding source_from
source_from-IsText started position [] h = tt
source_from-IsText started position (block ∷ blocks) h =
    elim (Bool-cases (block.is_boilerplate || is_empty block.content)) [
      | inl skip ↦ rw skip (source_from-IsText started position blocks h.1)
      | inr keep ↦ rw keep (
          All-append _ _ _ (separator-IsText started)
            (All-append _ _ _ h.0 (source_from-IsText true _ blocks h.1)))
    ]
  where
    separator-IsText : (started : Bool) → IsText (if started then 10 ∷ 10 ∷ [] else [])
    separator-IsText true = (omega arith, (omega arith, tt))
    separator-IsText false = tt

valid_sizes :
    (size overlap : ℤ)
    → (leb_ℤ size (pos 0) || ltb_ℤ overlap (pos 0) || leb_ℤ size overlap) ≡ false
    → (m : ℕ) × (n : ℕ) × (size ≡ pos m) × (overlap ≡ pos n) × (n < m)
valid_sizes (pos m) (pos n) h = (m, n, refl, refl, ground arith)
valid_sizes (pos m) (negsuc n) h = absurd (ground arith)
valid_sizes (negsuc m) overlap h = absurd (ground arith)

module _ (canonical_json_hash : Object → String) (tokenizer_snapshot : List (String × String))
    (encode : List ℕ → List ℕ) (token_bytes : ℕ → List ℕ)
    (tokens_of_text : (text : List ℕ) → encode text ≡ [] → text ≡ []) where
  windows_overlap :
      (blocks : List DocumentBlock) (size overlap : ℕ) (windows : List TokenWindow)
      → overlap < size
      → All (λ (block : DocumentBlock). IsText block.content) blocks
      → safe_token_windows encode token_bytes (source_text blocks).0 (pos size) (pos overlap)
        ≡ ok windows
      → All
          (λ (span : Span).
            any
              (λ (window : TokenWindow).
                ltb window.char_start span.end && ltb span.start window.char_end)
              windows
            ≡ true)
          (source_text blocks).1
  unfolding source_text
  windows_overlap blocks size overlap windows lt texts h =
      let (text, spans) = source_from false 0 blocks in
      let within = source_from-IsWithin false 0 blocks in
      elim (returned-Covers encode token_bytes text size overlap windows
        (source_from-IsText false 0 blocks texts) lt h) [
          | inl (no_tokens, _) ↦
              let empty : length text ≡ 0 = ap length (tokens_of_text text no_tokens) in
              All-map
                (λ (span : Span) (w : IsWithin 0 (0 + length text) span). absurd (omega arith))
                spans within
          | inr covers ↦
              All-map
                (λ (span : Span) (w : IsWithin 0 (0 + length text) span).
                  Covers-overlaps text (length (encode text)) overlap 0 0 windows span covers
                    (omega arith) w.1 (omega arith))
                spans within
        ]

  split_document-keeps :
      (self : FixedChunker) (document parse_snapshot : String) (blocks : List DocumentBlock)
      (records : List ChunkRecord) (size overlap : ℕ)
      → self.size ≡ pos size
      → self.overlap ≡ pos overlap
      → overlap < size
      → All (λ (block : DocumentBlock). IsText block.content) blocks
      → split_document canonical_json_hash tokenizer_snapshot encode token_bytes self document
          parse_snapshot blocks
        ≡ ok records
      → All
          (λ (block : DocumentBlock). is_usable block ≡ true → IsKept records block.block_id)
          blocks
  unfolding split_document source_text
  split_document-keeps self document parse_snapshot blocks records size overlap es eo lt texts h =
      let (text, spans) = source_text blocks in
      let (windows, ran, after) =
        >>=-eq-ok (safe_token_windows encode token_bytes text self.size self.overlap) _ h in
      let (rows, made, checking) =
        >>=-eq-ok
          (chunks_of canonical_json_hash tokenizer_snapshot self document parse_snapshot spans 0
            windows)
          _ after in
      let (_, _, done) = >>=-eq-ok (check_records (length (encode text)) rows) _ checking in
      let overlapped = windows_overlap blocks size overlap windows lt texts (
        subst (λ (o : ℤ). safe_token_windows encode token_bytes text (pos size) o ≡ ok windows) eo
          (subst (λ (s : ℤ). safe_token_windows encode token_bytes text s self.overlap ≡ ok windows)
            es ran)) in
      All-source_from (λ (block : DocumentBlock). IsKept records block.block_id) false 0 blocks
        (All-by_index _ spans (λ i (span : Span) there.
          subst (λ (r : List ChunkRecord). IsKept r span.block.block_id) (ok-injective done)
            (chunks_of-keeps canonical_json_hash tokenizer_snapshot self document parse_snapshot
              spans 0 i windows rows span made there
              (All-get_elem? _ spans i span overlapped there))))

  split_one-keeps :
      (self : FixedChunker) (blocks : List DocumentBlock) (records : List ChunkRecord)
      (size overlap : ℕ)
      → self.size ≡ pos size
      → self.overlap ≡ pos overlap
      → overlap < size
      → All (λ (block : DocumentBlock). IsText block.content) blocks
      → (identities : List ((String × String) × String))
      → split_one canonical_json_hash tokenizer_snapshot encode token_bytes self blocks identities
        ≡ ok records
      → All
          (λ (block : DocumentBlock). is_usable block ≡ true → IsKept records block.block_id)
          blocks
  unfolding split_one
  split_one-keeps self blocks records size overlap es eo lt texts [] h = absurd (cc)
  split_one-keeps self blocks records size overlap es eo lt texts
        (((document, parse_snapshot), _) ∷ []) h =
      split_document-keeps self document parse_snapshot blocks records size overlap es eo lt texts h
  split_one-keeps self blocks records size overlap es eo lt texts (_ ∷ _ ∷ _) h = absurd (cc)

  -- A chunker that was made keeps every block that it cuts.
  pub split_keeps :
      (size overlap : ℤ) (self : FixedChunker) (blocks : List DocumentBlock)
      (records : List ChunkRecord)
      → new_fixed canonical_json_hash tokenizer_snapshot size overlap ≡ ok self
      → All (λ (block : DocumentBlock). IsText block.content) blocks
      → split canonical_json_hash tokenizer_snapshot encode token_bytes self blocks ≡ ok records
      → All
          (λ (block : DocumentBlock). is_usable block ≡ true → IsKept records block.block_id)
          blocks
  unfolding split new_fixed
  split_keeps size overlap self [] records made texts h = tt
  split_keeps size overlap self (block ∷ blocks) records made texts h =
      let (test, built) = raise_if-eq-ok _ _ _ made in
      let (m, n, es, eo, lt) = valid_sizes size overlap test in
      let sized = sym (ap (λ (c : FixedChunker). c.size) (ok-injective built)) ∙ es in
      let overlaps = sym (ap (λ (c : FixedChunker). c.overlap) (ok-injective built)) ∙ eo in
      split_one-keeps self (block ∷ blocks) records m n sized overlaps lt texts
        (to_set (map identity_of (block ∷ blocks))) h
