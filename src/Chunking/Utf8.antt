-- ===== src/Chunking/Utf8.antt =====
-- Python's UTF-8 codec, as src/ragbench/chunking/tokenizer.py uses it: `str.encode`, `bytes.decode` and
-- the incremental decoder. Bytes and code points are numbers.
pub mod Decoding
pub mod RoundTrip
use ragbench_kr_implementati.Prelude.{
  ℕ, zero, suc, ◌+◌, ◌-◌, ◌*◌, ◌/◌, ◌%◌, ◌≡◌, refl, ap, Bool, true, false, not, ◌&&◌, ◌||◌, List,
  [], ◌∷◌, ◌++◌, arith, ltb, leb, ◌==◌, if◌then◌else◌,
}
use ragbench_kr_implementati.Prelude.Result.{Result, ok, err, raise_if, unicode_error, ◌>>=◌, ◌>>◌}

abbrev within : ℕ → ℕ → ℕ → Bool
within low high b = leb low b && leb b high

-- `text.encode("utf-8")`: a lone surrogate has no encoding.
unfoldable pub encode_char : ℕ → Result (List ℕ)
encode_char c =
    if ltb c 0x80
    then ok (c ∷ [])
    else if ltb c 0x800
    then ok ((0xC0 + c / 0x40) ∷ (0x80 + c % 0x40) ∷ [])
    else if within 0xD800 0xDFFF c
    then err unicode_error
    else if ltb c 0x10000
    then ok ((0xE0 + c / 0x1000) ∷ (0x80 + c / 0x40 % 0x40) ∷ (0x80 + c % 0x40) ∷ [])
    else ok (
        (0xF0 + c / 0x40000)
        ∷ (0x80 + c / 0x1000 % 0x40)
        ∷ (0x80 + c / 0x40 % 0x40)
        ∷ (0x80 + c % 0x40)
        ∷ [])

unfoldable pub encode_text : List ℕ → Result (List ℕ)
unfolding encode_char
encode_text [] = ok []
encode_text (c ∷ text) = do piece ← encode_char c; rest ← encode_text text; ok (piece ++ rest)

-- What the decoder keeps between two bytes: nothing, or a character of which `left` bytes are to come,
-- the next of them within bounds.
pub data Buffer : Type 0 where
  clean : Buffer
  partial : (left low high value : ℕ) → Buffer

abbrev pub is_clean : Buffer → Bool
is_clean clean = true
is_clean (partial _ _ _ _) = false

-- The first byte of a character. The second byte of a long one is bounded, which shuts out overlong
-- forms, surrogates and code points past the last.
first_byte : ℕ → Result (Buffer × List ℕ)
first_byte b =
    if ltb b 0x80
    then ok (clean, b ∷ [])
    else if within 0xC2 0xDF b
    then ok (partial 0 0x80 0xBF (b - 0xC0), [])
    else if within 0xE0 0xEF b
    then ok (
      partial 1 (if b == 0xE0 then 0xA0 else 0x80) (if b == 0xED then 0x9F else 0xBF) (b - 0xE0),
      [],
    )
    else if within 0xF0 0xF4 b
    then ok (
      partial 2 (if b == 0xF0 then 0x90 else 0x80) (if b == 0xF4 then 0x8F else 0xBF) (b - 0xF0),
      [],
    )
    else err unicode_error

-- A byte after the first. `left` counts the bytes that follow it.
next_byte : ℕ → ℕ → ℕ → ℕ → ℕ → Result (Buffer × List ℕ)
next_byte zero low high value b =
    if within low high b then ok (clean, (value * 0x40 + (b - 0x80)) ∷ []) else err unicode_error
next_byte (suc left) low high value b =
    if within low high b
    then ok (partial left 0x80 0xBF (value * 0x40 + (b - 0x80)), [])
    else err unicode_error

unfoldable pub decode_byte : Buffer → ℕ → Result (Buffer × List ℕ)
unfolding first_byte next_byte
decode_byte clean b = first_byte b
decode_byte (partial left low high value) b = next_byte left low high value b

-- `decoder.decode(piece)`: the characters that the piece completes.
unfoldable pub decode_piece : Buffer → List ℕ → Result (Buffer × List ℕ)
unfolding decode_byte
decode_piece buffer [] = ok (buffer, [])
decode_piece buffer (b ∷ piece) = do
  (after, out) ← decode_byte buffer b
  (last, more) ← decode_piece after piece
  ok (last, out ++ more)

-- `piece.decode("utf-8")`
unfoldable pub decode_text : List ℕ → Result (List ℕ)
unfolding decode_piece
decode_text piece = do
  (buffer, text) ← decode_piece clean piece
  raise_if (not (is_clean buffer)) unicode_error
  ok text
