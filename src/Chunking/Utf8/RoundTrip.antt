-- ===== src/Chunking/Utf8/RoundTrip.antt =====
-- A text that has an encoding is decoded from it.
use mathlib.Core.Path.{subst}
use ragbench_kr_implementati.Prelude.{
  ℕ, suc, ◌+◌, ◌*◌, ◌/◌, ◌%◌, ◌≤◌, ◌<◌, ◌≡◌, false, List, [], ◌∷◌, arith, ltb, ◌==◌, if◌then◌else◌,
  All, Bool-cases, inl, inr,
}
use ragbench_kr_implementati.Prelude.Result.{ok, >>=-eq-ok, ok-injective}
use ragbench_kr_implementati.Chunking.Utf8.{
  clean, partial, decode_byte, encode_char, encode_text, within,
}
use ragbench_kr_implementati.Chunking.Utf8.Decoding.{
  Decodes, Decodes-append, decode_cons, decode_nil,
}

short : (c : ℕ) → c < 0x80 → decode_byte clean c ≡ ok (clean, c ∷ [])
unfolding decode_byte
short c h = ground arith

start_two :
    (v : ℕ) → 2 ≤ v → v < 0x20 → decode_byte clean (0xC0 + v) ≡ ok (partial 0 0x80 0xBF v, [])
unfolding decode_byte
start_two v h k = ground arith

start_three :
    (v : ℕ)
    → v < 0x10
    → decode_byte clean (0xE0 + v)
      ≡ ok (partial 1 (if v == 0 then 0xA0 else 0x80) (if v == 0xD then 0x9F else 0xBF) v, [])
unfolding decode_byte
start_three v h = ground arith

start_four :
    (v : ℕ)
    → v < 5
    → decode_byte clean (0xF0 + v)
      ≡ ok (partial 2 (if v == 0 then 0x90 else 0x80) (if v == 4 then 0x8F else 0xBF) v, [])
unfolding decode_byte
start_four v h = ground arith

later :
    (left low high v b : ℕ)
    → low ≤ 0x80 + b
    → 0x80 + b ≤ high
    → decode_byte (partial (suc left) low high v) (0x80 + b)
      ≡ ok (partial left 0x80 0xBF (v * 0x40 + b), [])
unfolding decode_byte
later left low high v b h k = ground arith

final :
    (low high v b : ℕ)
    → low ≤ 0x80 + b
    → 0x80 + b ≤ high
    → decode_byte (partial 0 low high v) (0x80 + b) ≡ ok (clean, (v * 0x40 + b) ∷ [])
unfolding decode_byte
final low high v b h k = ground arith

one_char :
    (c d : ℕ) (piece : List ℕ)
    → c ≡ d
    → Decodes clean piece clean (c ∷ [])
    → Decodes clean piece clean (d ∷ [])
one_char c d piece e h = subst (λ (n : ℕ). Decodes clean piece clean (n ∷ [])) e h

two_bytes :
    (c : ℕ)
    → 0x80 ≤ c
    → c < 0x800
    → Decodes clean ((0xC0 + c / 0x40) ∷ (0x80 + c % 0x40) ∷ []) clean (c ∷ [])
two_bytes c h k = one_char (c / 0x40 * 0x40 + c % 0x40) c _ (omega arith) (
    decode_cons _ _ _ _ _ [] _ (start_two (c / 0x40) (omega arith) (omega arith)) (
      decode_cons _ _ _ _ _ _ [] (final 0x80 0xBF (c / 0x40) (c % 0x40) (omega arith) (omega arith))
        (decode_nil clean)))

three_bytes :
    (c : ℕ)
    → 0x800 ≤ c
    → within 0xD800 0xDFFF c ≡ false
    → c < 0x10000
    → Decodes clean
        ((0xE0 + c / 0x1000) ∷ (0x80 + c / 0x40 % 0x40) ∷ (0x80 + c % 0x40) ∷ [])
        clean
        (c ∷ [])
three_bytes c h s k =
    let v = c / 0x1000 in
    let mid = c / 0x40 % 0x40 in
    one_char ((v * 0x40 + mid) * 0x40 + c % 0x40) c _ (omega arith) (
      decode_cons _ _ _ _ _ [] _ (start_three v (omega arith)) (
        decode_cons _ _ _ _ _ [] _ (later 0 _ _ v mid (ground arith) (ground arith)) (
          decode_cons _ _ _ _ _ _ []
            (final 0x80 0xBF (v * 0x40 + mid) (c % 0x40) (omega arith) (omega arith))
            (decode_nil clean))))

four_bytes :
    (c : ℕ)
    → 0x10000 ≤ c
    → c < 0x110000
    → Decodes clean
        ((0xF0 + c / 0x40000)
          ∷ (0x80 + c / 0x1000 % 0x40)
          ∷ (0x80 + c / 0x40 % 0x40)
          ∷ (0x80 + c % 0x40)
          ∷ [])
        clean
        (c ∷ [])
four_bytes c h k =
    let v = c / 0x40000 in
    let high = c / 0x1000 % 0x40 in
    let mid = c / 0x40 % 0x40 in
    one_char (((v * 0x40 + high) * 0x40 + mid) * 0x40 + c % 0x40) c _ (omega arith) (
      decode_cons _ _ _ _ _ [] _ (start_four v (omega arith)) (
        decode_cons _ _ _ _ _ [] _ (later 1 _ _ v high (ground arith) (ground arith)) (
          decode_cons _ _ _ _ _ [] _
            (later 0 0x80 0xBF (v * 0x40 + high) mid (omega arith) (omega arith))
            (decode_cons _ _ _ _ _ _ []
              (final 0x80 0xBF ((v * 0x40 + high) * 0x40 + mid) (c % 0x40) (omega arith)
                (omega arith))
              (decode_nil clean)))))

encode_char-Decodes :
    (c : ℕ) (piece : List ℕ)
    → c < 0x110000
    → encode_char c ≡ ok piece
    → Decodes clean piece clean (c ∷ [])
unfolding encode_char
encode_char-Decodes c piece h e = elim (Bool-cases (ltb c 0x80)) [
  | inl one ↦
      subst (λ (p : List ℕ). Decodes clean p clean (c ∷ [])) (ok-injective (rw one at e))
        (decode_cons c [] clean clean clean (c ∷ []) [] (short c (ground arith)) (decode_nil clean))
  | inr more ↦ elim (Bool-cases (ltb c 0x800)) [
    | inl two ↦
        subst (λ (p : List ℕ). Decodes clean p clean (c ∷ []))
          (ok-injective (rw two at (rw more at e))) (two_bytes c (ground arith) (ground arith))
    | inr beyond ↦ elim (Bool-cases (within 0xD800 0xDFFF c)) [
      | inl surrogate ↦ absurd (let wrong = rw surrogate at (rw beyond at (rw more at e)) in cc)
      | inr proper ↦ elim (Bool-cases (ltb c 0x10000)) [
        | inl three ↦
            subst (λ (p : List ℕ). Decodes clean p clean (c ∷ []))
              (ok-injective (rw three at (rw proper at (rw beyond at (rw more at e)))))
              (three_bytes c (ground arith) proper (ground arith))
        | inr four ↦
            subst (λ (p : List ℕ). Decodes clean p clean (c ∷ []))
              (ok-injective (rw four at (rw proper at (rw beyond at (rw more at e)))))
              (four_bytes c (ground arith) h)
      ]
    ]
  ]
]

-- The code points of a string are below 0x110000.
abbrev pub IsText : List ℕ → Type 0
IsText = All (λ c. c < 0x110000)

pub encode_text-Decodes :
    (text payload : List ℕ)
    → IsText text
    → encode_text text ≡ ok payload
    → Decodes clean payload clean text
unfolding encode_text
encode_text-Decodes [] payload h e =
    subst (λ (p : List ℕ). Decodes clean p clean []) (ok-injective e) (decode_nil clean)
encode_text-Decodes (c ∷ text) payload h e =
    let (piece, first, more) = >>=-eq-ok (encode_char c) _ e in
    let (rest, second, done) = >>=-eq-ok (encode_text text) _ more in
    subst (λ (p : List ℕ). Decodes clean p clean (c ∷ text)) (ok-injective done)
      (Decodes-append piece rest clean clean clean (c ∷ []) text
        (encode_char-Decodes c piece h.0 first) (encode_text-Decodes text rest h.1 second))
