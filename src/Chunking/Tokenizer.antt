-- ===== src/Chunking/Tokenizer.antt =====
-- src/ragbench/chunking/tokenizer.py, the token windows. The vendored tokenizer is a parameter: `encode`
-- gives the tokens of a text, `token_bytes` the bytes of a token.
pub mod Bisection
pub mod Boundaries
pub mod Safety
pub mod Slices
pub mod Covering
pub mod Windows
use ragbench_kr_implementati.Prelude.{
  ℕ, zero, suc, ◌+◌, ◌-◌, min, max, Bool, true, false, not, ◌&&◌, ◌||◌, Option, none, some, List,
  [], ◌∷◌, ◌++◌, map, length, take, drop, ltb, leb, ◌==◌, if◌then◌else◌,
}
use ragbench_kr_implementati.Prelude.Int.{ℤ, pos, leb_ℤ, ltb_ℤ, pos_part}
use ragbench_kr_implementati.Prelude.Result.{
  Error, Result, ok, err, raise_if, value_error, runtime_error, key_error, index_error,
  unicode_error, ◌>>=◌, ◌>>◌,
}
use ragbench_kr_implementati.Prelude.Assoc.{nat_key, lookup, contains}
use ragbench_kr_implementati.Chunking.Utf8.{
  Buffer, clean, is_clean, decode_piece, decode_text, encode_text,
}

pub record TokenWindow : Type 0 where
  pub content : List ℕ
  pub token_start : ℕ
  pub token_end : ℕ
  pub char_start : ℕ
  pub char_end : ℕ

-- `b"".join(pieces)`
abbrev pub concat : List (List ℕ) → List ℕ
concat [] = []
concat (piece ∷ pieces) = piece ++ concat pieces

-- `lst[index]`
abbrev pub get_elem? {ℓ} : {A : Type ℓ} → List A → ℕ → Option A
get_elem? [] i = none
get_elem? (x ∷ xs) zero = some x
get_elem? (x ∷ xs) (suc i) = get_elem? xs i

-- `lst[-1]`
abbrev last : List ℕ → Option ℕ
last [] = none
last (x ∷ xs) = elim xs [ [] ↦ some x | _ ∷ _ ↦ last xs ]

abbrev pub found : Error → Option ℕ → Result ℕ
found error none = err error
found error (some n) = ok n

-- The loop of `_safe_token_boundaries`, and the check that ends it.
unfoldable pub scan : ℕ → ℕ → ℕ → Buffer → List (List ℕ) → Result (List ℕ × List (ℕ × ℕ))
unfolding decode_piece
scan index offset characters buffer [] = do
  raise_if (not (is_clean buffer)) unicode_error
  ok ([], [])
scan index offset characters buffer (piece ∷ pieces) = do
  (after, out) ← decode_piece buffer piece
  (offsets, safe) ← scan (suc index) (offset + length piece) (characters + length out) after pieces
  ok (
    (offset + length piece) ∷ offsets,
    if is_clean after then (suc index, characters + length out) ∷ safe else safe,
  )

-- The byte offset of each token position, and the characters before each safe one.
unfoldable pub safe_token_boundaries : List (List ℕ) → Result (List ℕ × List (ℕ × ℕ))
unfolding scan
safe_token_boundaries token_bytes = do
  (offsets, safe) ← scan 0 0 0 clean token_bytes
  ok (0 ∷ offsets, (0, 0) ∷ safe)

-- `bisect_right` of an ascending list.
unfoldable pub bisect_right : List ℕ → ℕ → ℕ
bisect_right [] x = 0
bisect_right (b ∷ bs) x = let rest = bisect_right bs x in if leb b x then suc rest else 0

-- `bisect_right(safe_boundaries, end - overlap)`: below 0 there is no boundary.
unfoldable pub bisect_back : List ℕ → ℕ → ℕ → ℕ
unfolding bisect_right
bisect_back boundaries end overlap =
    if ltb end overlap then 0 else bisect_right boundaries (end - overlap)

-- The inner `while`, from the boundary at `end_index` on.
unfoldable pub extend : List ℕ → ℕ → ℕ → ℕ → List ℕ → Result ℕ
unfolding bisect_back
extend boundaries count overlap next_boundary [] = err index_error
extend boundaries count overlap next_boundary (end ∷ later) =
    let further = extend boundaries count overlap next_boundary later in
    if ltb end count && leb (bisect_back boundaries end overlap) next_boundary
    then further
    else ok end

-- The end of the window that starts at `start`.
unfoldable pub window_end : List ℕ → ℕ → ℕ → ℕ → ℕ → Result ℕ
unfolding extend bisect_right
window_end boundaries count size overlap start =
    let nominal = min (start + size) count in
    let next_boundary = bisect_right boundaries start in
    let end_index = max next_boundary (bisect_right boundaries nominal - 1) in
    if nominal == count
    then ok count
    else extend boundaries count overlap next_boundary (drop end_index boundaries)

-- `safe_boundaries[bisect_right(safe_boundaries, end - overlap) - 1]`
unfoldable pub next_start : List ℕ → ℕ → ℕ → Result ℕ
unfolding bisect_back
next_start boundaries overlap end = found index_error (elim (bisect_back boundaries end overlap) [
  | zero ↦ last boundaries
  | suc index ↦ get_elem? boundaries index
])

-- `payload[offsets[start]:offsets[end]].decode("utf-8")`
unfoldable pub cut : List ℕ → List ℕ → ℕ → ℕ → Result (List ℕ)
unfolding decode_text
cut payload offsets start end = do
  first ← found index_error (get_elem? offsets start)
  last ← found index_error (get_elem? offsets end)
  decode_text (take (last - first) (drop first payload))

-- The loop over the windows. A round for each token suffices.
unfoldable pub windows_from :
    List ℕ → List ℕ → List (ℕ × ℕ) → ℕ → ℕ → ℕ → ℕ → ℕ → Result (List TokenWindow)
unfolding window_end next_start cut lookup
windows_from payload offsets safe count size overlap zero start =
    err (runtime_error "more windows than tokens")
windows_from payload offsets safe count size overlap (suc rounds) start = elim (ltb start count) [
  | false ↦ ok []
  | true ↦ do
    let boundaries = map (λ entry. entry.0) safe
    end ← window_end boundaries count size overlap start
    content ← cut payload offsets start end
    char_start ← found key_error (lookup start safe)
    char_end ← found key_error (lookup end safe)
    let window : TokenWindow = record {
      content = content;
      token_start = start;
      token_end = end;
      char_start = char_start;
      char_end = char_end;
    }
    elim (end == count) [
      | true ↦ ok (window ∷ [])
      | false ↦ do
        next ← next_start boundaries overlap end
        raise_if (leb next start) (runtime_error "safe tokenizer window made no progress")
        windows ← windows_from payload offsets safe count size overlap rounds next
        ok (window ∷ windows)
    ]
]

-- `xs == ys` of two byte strings.
abbrev pub same_bytes : List ℕ → List ℕ → Bool
same_bytes [] [] = true
same_bytes [] (y ∷ ys) = false
same_bytes (x ∷ xs) [] = false
same_bytes (x ∷ xs) (y ∷ ys) = x == y && same_bytes xs ys

-- The windows of a text with these tokens.
unfoldable pub windows_of : (ℕ → List ℕ) → List ℕ → ℕ → ℕ → List ℕ → Result (List TokenWindow)
unfolding safe_token_boundaries windows_from encode_text contains
windows_of token_bytes text size overlap [] = ok []
windows_of token_bytes text size overlap (token ∷ tokens) = do
  let pieces = map token_bytes (token ∷ tokens)
  let count = length (token ∷ tokens)
  (offsets, safe) ← safe_token_boundaries pieces
  payload ← encode_text text
  raise_if
      (not (same_bytes (concat pieces) payload)
        || not (contains count (map (λ entry. entry.0) safe)))
      (value_error "tokenizer bytes do not reconstruct normalized text")
  windows_from payload offsets safe count size overlap count 0

module _ (encode : List ℕ → List ℕ) (token_bytes : ℕ → List ℕ) where
  unfoldable pub safe_token_windows : List ℕ → ℤ → ℤ → Result (List TokenWindow)
  unfolding windows_of
  safe_token_windows text size overlap = do
    raise_if (leb_ℤ size (pos 0) || ltb_ℤ overlap (pos 0) || leb_ℤ size overlap)
        (value_error "size must be positive and greater than non-negative overlap")
    windows_of token_bytes text (pos_part size) (pos_part overlap) (encode text)
