-- ===== src/Tests/Chunking.antt =====
-- src/ragbench/chunking/. A text of three Hangul syllables and a letter, cut by bytes; a document of two sections, cut
-- by characters.
use Prim.Native.String.{◌++◌}
use ragbench_kr_implementati.Prelude.{
  ℕ, ◌≡◌, refl, Bool, true, false, List, [], ◌∷◌, length, All, arith, String, ◌==◌, if◌then◌else◌,
}
use ragbench_kr_implementati.Prelude.Int.{pos, ◌+ℤ◌, ◌-ℤ◌}
use ragbench_kr_implementati.Prelude.Result.{Result, ok, err, value_error, unicode_error}
use ragbench_kr_implementati.Chunking.{Text, DocumentBlock, ChunkRecord}
use ragbench_kr_implementati.Chunking.Utf8.{encode_char, encode_text, decode_text}
use ragbench_kr_implementati.Chunking.Tokenizer.{TokenWindow, safe_token_windows}
use ragbench_kr_implementati.Chunking.Tokenizer.Covering.{Covers}
use ragbench_kr_implementati.Chunking.Tokenizer.Windows.{safe_token_windows-Covers}
use ragbench_kr_implementati.Chunking.Json.{Object, number}
use ragbench_kr_implementati.Chunking.Fixed.Spans.{is_usable}
use ragbench_kr_implementati.Chunking.Fixed.Sources.{IsKept}
use ragbench_kr_implementati.Chunking.Heading.{HeadingAwareChunker, new_heading, split_headings}
use ragbench_kr_implementati.Chunking.Heading.Numbering.{IsNumbered}
use ragbench_kr_implementati.Chunking.Heading.Chunks.{split_headings_keeps_blocks}

abbrev bytes_or_none : Result (List ℕ) → List ℕ
bytes_or_none (ok bytes) = bytes
bytes_or_none (err _) = []

-- A token is a byte.
abbrev encode_bytes : Text → List ℕ
unfolding encode_text
encode_bytes text = bytes_or_none (encode_text text)

abbrev byte : ℕ → List ℕ
byte b = b ∷ []

-- A token is a character.
abbrev encode_characters : Text → List ℕ
encode_characters text = text

abbrev character : ℕ → List ℕ
unfolding encode_char
character c = bytes_or_none (encode_char c)

abbrev hangul : Text
hangul = 0xD55C ∷ 0xAD6D ∷ 0xC5B4 ∷ 65 ∷ []

abbrev hangul_bytes : List ℕ
hangul_bytes = 0xED ∷ 0x95 ∷ 0x9C ∷ 0xEA ∷ 0xB5 ∷ 0xAD ∷ 0xEC ∷ 0x96 ∷ 0xB4 ∷ 65 ∷ []

encoded : encode_text hangul ≡ ok hangul_bytes
unfolding encode_text
encoded = refl

decoded : decode_text hangul_bytes ≡ ok hangul
unfolding decode_text
decoded = refl

surrogate : encode_text (0xD800 ∷ []) ≡ err unicode_error
unfolding encode_text
surrogate = refl

overlong : decode_text (0xC0 ∷ 0x80 ∷ []) ≡ err unicode_error
unfolding decode_text
overlong = refl

-- Windows of five bytes end at a boundary of characters, after three bytes or six.
abbrev window : List ℕ → ℕ → ℕ → ℕ → ℕ → TokenWindow
window content start end from to = record {
  content = content;
  token_start = start;
  token_end = end;
  char_start = from;
  char_end = to;
}

cut_bytes :
    safe_token_windows encode_bytes byte hangul (pos 7) (pos 2)
    ≡ ok (window (0xD55C ∷ 0xAD6D ∷ []) 0 6 0 2 ∷ window (0xAD6D ∷ 0xC5B4 ∷ 65 ∷ []) 3 10 1 4 ∷ [])
unfolding safe_token_windows
cut_bytes = refl

bad_overlap :
    safe_token_windows encode_bytes byte hangul (pos 2) (pos 2)
    ≡ err (value_error "size must be positive and greater than non-negative overlap")
unfolding safe_token_windows
bad_overlap = refl

safe_token_windows-Covers_example :
    (windows : List TokenWindow) × (safe_token_windows encode_bytes byte hangul (pos 7) (pos 2)
      ≡ ok windows)
    × Covers hangul (length (encode_bytes hangul)) 2 0 0 windows
unfolding encode_bytes
safe_token_windows-Covers_example =
    safe_token_windows-Covers encode_bytes byte hangul hangul_bytes 7 2 (omega arith)
      (omega arith, (omega arith, (omega arith, (omega arith, tt)))) encoded refl

abbrev block : String → String → ℕ → Text → Bool → DocumentBlock
block id section page content is_boilerplate = record {
  block_id = id;
  document_id = "d";
  parse_snapshot_id = "p";
  source_sha256 = "s";
  page = pos page;
  section_path = section ∷ [];
  block_kind = "paragraph";
  content = content;
  source_content = content;
  source_element_indexes = pos 0 ∷ [];
  is_boilerplate = is_boilerplate;
}

abbrev blocks : List DocumentBlock
blocks =
    block "a" "1" 1 (0xD55C ∷ 65 ∷ []) false
    ∷ block "b" "1" 1 (66 ∷ []) true
    ∷ block "c" "1" 2 (67 ∷ 68 ∷ []) false
    ∷ block "d" "2" 3 (69 ∷ []) false
    ∷ []

-- A hash that tells the chunks of this document apart, by their first number.
abbrev hash : Object → String
hash [] = "0123456789abcdef01234567"
hash ((_, number (pos n)) ∷ payload) =
    if n == 0 then "00" else if n == 1 then "11" else if n == 2 then "22" else "44"
hash (_ ∷ payload) = hash payload

abbrev chunker : HeadingAwareChunker
chunker = record {
  target_size = pos 4;
  overlap = pos 1;
  strategy = "heading-4-1";
  strategy_hash = "44";
}

made : new_heading hash [] (pos 4) (pos 1) ≡ ok chunker
unfolding new_heading
made = refl

abbrev chunk : String → ℕ → ℕ → ℕ → String → ℕ → ℕ → Text → List String → ChunkRecord
chunk identity ordinal page_start page_end section token_start token_end content sources = record {
  chunk_id = "p:44:" ++ identity;
  document_id = "d";
  parse_snapshot_id = "p";
  strategy = "heading-4-1";
  strategy_hash = "44";
  ordinal = pos ordinal;
  page_start = pos page_start;
  page_end = pos page_end;
  section_path = section ∷ [];
  content = content;
  token_count = pos (length content);
  token_start = pos token_start;
  token_end = pos token_end;
  source_block_ids = sources;
}

abbrev chunks : List ChunkRecord
chunks =
    chunk "00" 0 1 1 "1" 0 4 (0xD55C ∷ 65 ∷ 10 ∷ 10 ∷ []) ("a" ∷ [])
    ∷ chunk "11" 1 2 2 "1" 3 6 (10 ∷ 67 ∷ 68 ∷ []) ("c" ∷ [])
    ∷ chunk "22" 2 3 3 "2" 6 7 (69 ∷ []) ("d" ∷ [])
    ∷ []

cut : split_headings hash [] encode_characters character chunker blocks ≡ ok chunks
unfolding split_headings ◌+ℤ◌ ◌-ℤ◌
cut = refl

split_headings_keeps_blocks_example :
    IsNumbered 0 chunks
    × All (λ (item : DocumentBlock). is_usable item ≡ true → IsKept chunks item.block_id) blocks
split_headings_keeps_blocks_example =
    split_headings_keeps_blocks hash [] encode_characters character (λ text no_tokens. no_tokens)
      chunker blocks chunks
      (
        (omega arith, (omega arith, tt)),
        ((omega arith, tt), ((omega arith, (omega arith, tt)), ((omega arith, tt), tt))),
      )
      cut
