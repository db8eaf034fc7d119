-- ===== src/Chunking/Tokenizer/Boundaries.antt =====
-- What `_safe_token_boundaries` returns: positions between characters, with the bytes and the
-- characters before them.
use mathlib.Core.Path.{subst}
use mathlib.Core.List.{append-nil}
use ragbench_kr_implementati.Prelude.{
  ℕ, zero, suc, ◌+◌, ◌<◌, ◌≡◌, refl, sym, ap, ◌∙◌, false, not, List, [], ◌∷◌, ◌++◌, some, arith,
  length, take, All, AllPairs, All-map, length-append, if◌then◌else◌,
}
use ragbench_kr_implementati.Prelude.Result.{ok, >>=-eq-ok, raise_if-eq-ok, ok-injective}
use ragbench_kr_implementati.Prelude.Assoc.{nat_key}
use ragbench_kr_implementati.Chunking.Utf8.{Buffer, clean, partial, is_clean, decode_piece}
use ragbench_kr_implementati.Chunking.Utf8.Decoding.{Decodes, Decodes-append}
use ragbench_kr_implementati.Chunking.Tokenizer.{get_elem?, concat, scan}

-- What the first `j` pieces decode to, between characters.
abbrev pub Prefix : Buffer → List (List ℕ) → ℕ → ℕ → Type 0
Prefix buffer pieces j characters =
    (text : List ℕ) × Decodes buffer (concat (take j pieces)) clean text
    × (characters ≡ length text)

-- An entry of the safe positions after `index`.
abbrev pub Entry : ℕ → ℕ → Buffer → List (List ℕ) → ℕ × ℕ → Type 0
Entry index characters buffer pieces entry =
    (j : ℕ) × (entry.0 ≡ index + suc j)
    × (j < length pieces)
    × (more : ℕ) × Prefix buffer pieces (suc j) more
    × (entry.1 ≡ characters + more)

-- The byte offsets after the first.
abbrev pub Offsets : ℕ → List (List ℕ) → List ℕ → Type 0
Offsets offset pieces offsets =
    (i : ℕ)
    → i < length pieces
    → get_elem? offsets i ≡ some (offset + length (concat (take (suc i) pieces)))

pub is_clean-eq : (b : Buffer) → not (is_clean b) ≡ false → b ≡ clean
is_clean-eq clean h = refl
is_clean-eq (partial _ _ _ _) h = cc

pub scan_cons :
    (index offset characters : ℕ) (buffer : Buffer) (piece : List ℕ) (pieces : List (List ℕ))
    (offsets : List ℕ) (safe : List (ℕ × ℕ))
    → scan index offset characters buffer (piece ∷ pieces) ≡ ok (offsets, safe)
    → (after : Buffer) × (out : List ℕ) × (offsets' : List ℕ) × (safe' : List (ℕ × ℕ)) × Decodes
        buffer piece after out
      × (scan (suc index) (offset + length piece) (characters + length out) after pieces
          ≡ ok (offsets', safe'))
      × ((offset + length piece) ∷ offsets' ≡ offsets)
      × ((if is_clean after then (suc index, characters + length out) ∷ safe' else safe') ≡ safe)
unfolding scan
scan_cons index offset characters buffer piece pieces offsets safe e =
    let (first, f, rest) = >>=-eq-ok (decode_piece buffer piece) _ e in
    let (second, g, done) =
      >>=-eq-ok
        (scan (suc index) (offset + length piece) (characters + length first.1) first.0 pieces) _
        rest in
    let same = ok-injective done in
    (first.0, first.1, second.0, second.1, f, g, ap (λ r. r.0) same, ap (λ r. r.1) same)

pub scan-Offsets :
    (index offset characters : ℕ) (buffer : Buffer) (pieces : List (List ℕ)) (offsets : List ℕ)
    (safe : List (ℕ × ℕ))
    → scan index offset characters buffer pieces ≡ ok (offsets, safe)
    → Offsets offset pieces offsets
scan-Offsets index offset characters buffer [] offsets safe e i h = absurd (omega arith)
scan-Offsets index offset characters buffer (piece ∷ pieces) offsets safe e i h =
    let (after, out, offsets', safe', d, s, same, kept) =
      scan_cons index offset characters buffer piece pieces offsets safe e in
    subst
      (λ (o : List ℕ).
        get_elem? o i ≡ some (offset + length (concat (take (suc i) (piece ∷ pieces)))))
      same
      (at offset piece pieces offsets'
        (scan-Offsets (suc index) (offset + length piece) (characters + length out) after pieces
          offsets' safe' s)
        i h)
  where
    at :
        (offset : ℕ) (piece : List ℕ) (pieces : List (List ℕ)) (offsets' : List ℕ)
        → Offsets (offset + length piece) pieces offsets'
        → (i : ℕ) → i < length (piece ∷ pieces)
        → get_elem? ((offset + length piece) ∷ offsets') i
          ≡ some (offset + length (concat (take (suc i) (piece ∷ pieces))))
    at offset piece pieces offsets' ih zero h =
        ap some (ap (λ (p : List ℕ). offset + length p) (sym (append-nil piece)))
    at offset piece pieces offsets' ih (suc i) h =
        ih i (omega arith)
        ∙ ap some (omega (arith, length-append {0} piece (concat (take (suc i) pieces))))

Entry-later :
    (index characters : ℕ) (buffer after : Buffer) (piece : List ℕ) (pieces : List (List ℕ))
    (out : List ℕ) (entry : ℕ × ℕ)
    → Decodes buffer piece after out
    → Entry (suc index) (characters + length out) after pieces entry
    → Entry index characters buffer (piece ∷ pieces) entry
Entry-later index characters buffer after piece pieces out entry d
      (j, key, inside, more, (text, rest, count), total) =
    (
      suc j,
      omega arith,
      omega arith,
      length out + more,
      (
        out ++ text,
        Decodes-append piece (concat (take (suc j) pieces)) buffer after clean out text d rest,
        omega (arith, length-append {0} out text),
      ),
      omega arith,
    )

Entry-here :
    (index characters : ℕ) (buffer : Buffer) (piece : List ℕ) (pieces : List (List ℕ))
    (out : List ℕ)
    → Decodes buffer piece clean out
    → Entry index characters buffer (piece ∷ pieces) (suc index, characters + length out)
Entry-here index characters buffer piece pieces out d = (
  0,
  omega arith,
  omega arith,
  length out,
  (out, subst (λ (p : List ℕ). Decodes buffer p clean out) (sym (append-nil piece)) d, refl),
  refl,
)

above : (index key j : ℕ) → key ≡ suc index + suc j → suc index < key
above index key j e = omega arith

-- Every safe position is between characters, and they ascend.
pub scan-Entries :
    (index offset characters : ℕ) (buffer : Buffer) (pieces : List (List ℕ)) (offsets : List ℕ)
    (safe : List (ℕ × ℕ))
    → scan index offset characters buffer pieces ≡ ok (offsets, safe)
    → All (Entry index characters buffer pieces) safe × AllPairs (λ a b. a.0 < b.0) safe
unfolding scan
scan-Entries index offset characters buffer [] offsets safe e =
    let done = ok-injective (raise_if-eq-ok (not (is_clean buffer)) _ _ e).1 in
    subst
      (λ (s : List (ℕ × ℕ)).
        All (Entry index characters buffer []) s × AllPairs (λ a b. a.0 < b.0) s)
      (ap (λ r. r.1) done) (tt, tt)
scan-Entries index offset characters buffer (piece ∷ pieces) offsets safe e =
    let (after, out, offsets', safe', d, s, same, kept) =
      scan_cons index offset characters buffer piece pieces offsets safe e in
    let (entries, ascending) =
      scan-Entries (suc index) (offset + length piece) (characters + length out) after pieces
        offsets' safe' s in
    subst
      (λ (s : List (ℕ × ℕ)).
        All (Entry index characters buffer (piece ∷ pieces)) s × AllPairs (λ a b. a.0 < b.0) s)
      kept (at after out safe' d entries ascending)
  where
    at :
        (after : Buffer) (out : List ℕ) (safe' : List (ℕ × ℕ))
        → Decodes buffer piece after out
        → All (Entry (suc index) (characters + length out) after pieces) safe'
        → AllPairs (λ a b. a.0 < b.0) safe'
        → All
            (Entry index characters buffer (piece ∷ pieces))
            (if is_clean after then (suc index, characters + length out) ∷ safe' else safe')
          × AllPairs
              (λ a b. a.0 < b.0)
              (if is_clean after then (suc index, characters + length out) ∷ safe' else safe')
    at clean out safe' d entries ascending = (
      (
        Entry-here index characters buffer piece pieces out d,
        All-map
            (λ entry found.
              Entry-later index characters buffer clean piece pieces out entry d found)
            safe' entries,
      ),
      (
        All-map
            (λ entry (found : Entry (suc index) (characters + length out) clean pieces entry).
              above index entry.0 found.0 found.1)
            safe' entries,
        ascending,
      ),
    )
    at (partial left low high value) out safe' d entries ascending = (
      All-map
          (λ entry found.
            Entry-later index characters buffer (partial left low high value) piece pieces out entry
              d found)
          safe' entries,
      ascending,
    )
