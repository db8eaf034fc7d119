-- ===== src/Chunking/Tokenizer/Windows.antt =====
-- The windows cover the text, with the overlap asked for.
use mathlib.Core.Path.{subst}
use ragbench_kr_implementati.Prelude.{
  ℕ, ◌<◌, ◌≡◌, refl, sym, ap, ◌∙◌, Bool, true, false, not, ◌||◌, List, [], ◌∷◌, map, arith, length,
  length-map, inl, inr, ◌⊎◌,
}
use ragbench_kr_implementati.Prelude.Int.{pos, leb_ℤ, ltb_ℤ}
use ragbench_kr_implementati.Prelude.Result.{ok, ok-injective, >>=-eq-ok, raise_if-eq-ok}
use ragbench_kr_implementati.Prelude.Assoc.{nat_key, contains}
use ragbench_kr_implementati.Chunking.Utf8.{clean, encode_text}
use ragbench_kr_implementati.Chunking.Utf8.Decoding.{Decodes, decode_nil_inv}
use ragbench_kr_implementati.Chunking.Utf8.RoundTrip.{IsText, encode_text-Decodes}
use ragbench_kr_implementati.Chunking.Tokenizer.{
  TokenWindow, concat, found, windows_from, same_bytes, safe_token_boundaries, windows_of,
  safe_token_windows,
}
use ragbench_kr_implementati.Chunking.Tokenizer.Bisection.{EndsAt}
use ragbench_kr_implementati.Chunking.Tokenizer.Safety.{
  safe_token_boundaries-AreSafe, safe_token_boundaries-ok,
}
use ragbench_kr_implementati.Chunking.Tokenizer.Covering.{Covers, IsSafe-zero, windows_from-Covers}

same_bytes-eq : (xs ys : List ℕ) → same_bytes xs ys ≡ true → xs ≡ ys
same_bytes-eq [] [] h = refl
same_bytes-eq [] (y ∷ ys) h = cc
same_bytes-eq (x ∷ xs) [] h = cc
same_bytes-eq (x ∷ xs) (y ∷ ys) h = ground (arith, same_bytes-eq xs ys)

same_bytes_refl : (xs : List ℕ) → same_bytes xs xs ≡ true
same_bytes_refl [] = refl
same_bytes_refl (x ∷ xs) = ground (arith, same_bytes_refl xs)

EndsAt-contains : (count : ℕ) (bs : List ℕ) → EndsAt count bs → contains count bs ≡ true
unfolding contains
EndsAt-contains count [] e = absurd e
EndsAt-contains count (b ∷ []) e = ground arith
EndsAt-contains count (b ∷ c ∷ bs) e = ground (arith, EndsAt-contains count (c ∷ bs) e)

accepted :
    (size overlap : ℕ)
    → overlap < size
    → (leb_ℤ (pos size) (pos 0) || ltb_ℤ (pos overlap) (pos 0) || leb_ℤ (pos size) (pos overlap))
      ≡ false
accepted size overlap h = ground arith

first_holds : (a b : Bool) → (not a || not b) ≡ false → a ≡ true
first_holds a b h = ground arith

checked : (a b : Bool) → a ≡ true → b ≡ true → (not a || not b) ≡ false
checked a b h k = ground arith

module _ (token_bytes : ℕ → List ℕ) where
  windows_of-Covers :
      (text payload : List ℕ) (size overlap : ℕ) (tokens : List ℕ)
      → overlap < size
      → Decodes clean payload clean text
      → encode_text text ≡ ok payload
      → concat (map token_bytes tokens) ≡ payload
      → (windows : List TokenWindow) × (windows_of token_bytes text size overlap tokens
          ≡ ok windows)
        × Covers text (length tokens) overlap 0 0 windows
  unfolding windows_of
  windows_of-Covers text payload size overlap [] h d e c = (
    [],
    refl,
    (
      refl,
      ap length
          (decode_nil_inv clean clean text
            (subst (λ (p : List ℕ). Decodes clean p clean text) (sym c) d)).1,
    ),
  )
  windows_of-Covers text payload size overlap (token ∷ tokens) h d e c =
      let pieces = map token_bytes (token ∷ tokens) in
      let decodes = subst (λ (p : List ℕ). Decodes clean p clean text) (sym c) d in
      let (r, bounds) = safe_token_boundaries-ok pieces text decodes in
      let are_safe =
        safe_token_boundaries-AreSafe (token_bytes token) (map token_bytes tokens) r bounds in
      let (found, looped, from_safe) =
        windows_from-Covers pieces text size overlap (omega arith) decodes r are_safe
          (length pieces) 0 are_safe.3 (omega arith) (omega arith) in
      let from_zero =
        subst (λ (n : ℕ). Covers text (length pieces) overlap 0 n found)
          (IsSafe-zero pieces r.0 r.1 are_safe.3) from_safe in
      let (windows, same, covers) =
        subst
          (λ (n : ℕ).
            (windows : List TokenWindow) × (windows_from (concat pieces) r.0 r.1 n size overlap n 0
              ≡ ok windows)
            × Covers text n overlap 0 0 windows)
          (length-map token_bytes (token ∷ tokens)) (found, looped, from_zero) in
      let counted =
        subst (λ (n : ℕ). contains n (map (λ entry. entry.0) r.1) ≡ true)
          (length-map token_bytes (token ∷ tokens))
          (EndsAt-contains (length pieces) (map (λ entry. entry.0) r.1) are_safe.1) in
      (
        windows,
        rw bounds (
            rw (e ∙ ap ok (sym c))
              (rw (checked _ _ (same_bytes_refl (concat pieces)) counted) same)),
        covers,
      )

module _ (encode : List ℕ → List ℕ) (token_bytes : ℕ → List ℕ) where
  -- The tokenizer's tokens spell the text's bytes: then the windows cover the text.
  pub safe_token_windows-Covers :
      (text payload : List ℕ) (size overlap : ℕ)
      → overlap < size
      → IsText text
      → encode_text text ≡ ok payload
      → concat (map token_bytes (encode text)) ≡ payload
      → (windows : List TokenWindow) × (safe_token_windows encode token_bytes text
            (pos size)
            (pos overlap)
          ≡ ok windows)
        × Covers text (length (encode text)) overlap 0 0 windows
  unfolding safe_token_windows
  safe_token_windows-Covers text payload size overlap h t e c = rw (accepted size overlap h) (
      windows_of-Covers token_bytes text payload size overlap (encode text) h
        (encode_text-Decodes text payload t e) e c)

  spells :
      (text : List ℕ) (size overlap : ℕ) (tokens : List ℕ) (windows : List TokenWindow)
      → windows_of token_bytes text size overlap tokens ≡ ok windows
      → ((tokens ≡ []) × (windows ≡ []))
        ⊎ ((payload : List ℕ) × (encode_text text ≡ ok payload)
            × (concat (map token_bytes tokens) ≡ payload))
  unfolding windows_of
  spells text size overlap [] windows h = inl (refl, sym (ok-injective h))
  spells text size overlap (token ∷ tokens) windows h =
      let pieces = map token_bytes (token ∷ tokens) in
      let (r, bounds, after) = >>=-eq-ok (safe_token_boundaries pieces) _ h in
      let (payload, encoded, rest) = >>=-eq-ok (encode_text text) _ after in
      let (test, _) = raise_if-eq-ok _ _ _ rest in
      inr (payload, encoded, same_bytes-eq _ _ (first_holds _ _ test))

  -- Whatever the tokenizer does, windows that are returned for a text with tokens cover it.
  pub returned-Covers :
      (text : List ℕ) (size overlap : ℕ) (windows : List TokenWindow)
      → IsText text
      → overlap < size
      → safe_token_windows encode token_bytes text (pos size) (pos overlap) ≡ ok windows
      → ((encode text ≡ []) × (windows ≡ []))
        ⊎ Covers text (length (encode text)) overlap 0 0 windows
  unfolding safe_token_windows
  returned-Covers text size overlap windows t h e =
      let (_, ran) = raise_if-eq-ok _ _ _ e in
      elim (spells text size overlap (encode text) windows ran) [
        | inl none_ ↦ inl none_
        | inr (payload, encoded, spelled) ↦
            let (found, again, covers) =
              windows_of-Covers token_bytes text payload size overlap (encode text) h
                (encode_text-Decodes text payload t encoded) encoded spelled in
            inr (
              subst (Covers text (length (encode text)) overlap 0 0)
                (ok-injective (sym again ∙ ran)) covers)
      ]
