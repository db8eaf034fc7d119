-- ===== src/Chunking/Tokenizer/Safety.antt =====
-- The safe positions of a tokenized text: they ascend from 0 to the number of tokens, and each is
-- found with its characters, its byte offset and the text before it.
use mathlib.Core.Path.{subst}
use ragbench_kr_implementati.Prelude.{
  ℕ, suc, ◌+◌, ◌≤◌, ◌<◌, ◌≡◌, refl, sym, ap, ◌∙◌, not, List, [], ◌∷◌, map, some, arith, length,
  take, All, AllPairs, All-map, All-map₂, if◌then◌else◌,
}
use ragbench_kr_implementati.Prelude.Result.{ok, >>=-eq-ok, raise_if-eq-ok, ok-injective}
use ragbench_kr_implementati.Prelude.Assoc.{nat_key, lookup}
use ragbench_kr_implementati.Chunking.Utf8.{Buffer, clean, partial, is_clean}
use ragbench_kr_implementati.Chunking.Utf8.Decoding.{
  Decodes, decode_nil, decode_nil_inv, Decodes-split,
}
use ragbench_kr_implementati.Chunking.Tokenizer.{get_elem?, concat, scan, safe_token_boundaries}
use ragbench_kr_implementati.Chunking.Tokenizer.Bisection.{EndsAt}
use ragbench_kr_implementati.Chunking.Tokenizer.Boundaries.{
  Prefix, Entry, Offsets, scan_cons, scan-Offsets, scan-Entries, is_clean-eq,
}

EndsAt-cons : (count b : ℕ) (bs : List ℕ) → EndsAt count bs → EndsAt count (b ∷ bs)
EndsAt-cons count b [] h = absurd h
EndsAt-cons count b (c ∷ bs) h = h

scan-EndsAt :
    (index offset characters : ℕ) (buffer : Buffer) (piece : List ℕ) (pieces : List (List ℕ))
    (offsets : List ℕ) (safe : List (ℕ × ℕ))
    → scan index offset characters buffer (piece ∷ pieces) ≡ ok (offsets, safe)
    → EndsAt (suc index + length pieces) (map (λ entry. entry.0) safe)
unfolding scan
scan-EndsAt index offset characters buffer piece [] offsets safe e =
    let (after, out, offsets', safe', d, s, same, kept) =
      scan_cons index offset characters buffer piece [] offsets safe e in
    let (finished, done) = raise_if-eq-ok (not (is_clean after)) _ _ s in
    subst (λ (s : List (ℕ × ℕ)). EndsAt (suc index + 0) (map (λ entry. entry.0) s)) kept
      (rw (is_clean-eq after finished) (
        subst (λ (s : List (ℕ × ℕ)). EndsAt (suc index + 0) (suc index ∷ map (λ entry. entry.0) s))
          (ap (λ r. r.1) (ok-injective done)) (omega arith)))
scan-EndsAt index offset characters buffer piece (next ∷ pieces) offsets safe e =
    let (after, out, offsets', safe', d, s, same, kept) =
      scan_cons index offset characters buffer piece (next ∷ pieces) offsets safe e in
    let ih =
      scan-EndsAt (suc index) (offset + length piece) (characters + length out) after next pieces
        offsets' safe' s in
    subst
      (λ (s : List (ℕ × ℕ)). EndsAt (suc index + length (next ∷ pieces)) (map (λ entry. entry.0) s))
      kept
      (at after safe' (characters + length out)
        (subst (λ (n : ℕ). EndsAt n (map (λ entry. entry.0) safe')) (omega arith) ih))
  where
    at :
        (after : Buffer) (safe' : List (ℕ × ℕ)) (characters : ℕ)
        → EndsAt (suc index + length (next ∷ pieces)) (map (λ entry. entry.0) safe')
        → EndsAt (suc index + length (next ∷ pieces)) (
            map
              (λ entry. entry.0)
              (if is_clean after then (suc index, characters) ∷ safe' else safe'))
    at clean safe' characters h =
        EndsAt-cons (suc index + length (next ∷ pieces)) (suc index) (map (λ entry. entry.0) safe')
          h
    at (partial _ _ _ _) safe' characters h = h

-- Ascending keys are found.
All-lookup :
    (m : List (ℕ × ℕ))
    → AllPairs (λ a b. a.0 < b.0) m
    → All (λ entry. lookup entry.0 m ≡ some entry.1) m
unfolding lookup
All-lookup [] h = tt
All-lookup ((b, w) ∷ m) h = (
  ground arith,
  All-map₂
      (λ (entry : ℕ × ℕ) (lt : b < entry.0) (there : lookup entry.0 m ≡ some entry.1).
        skip b w m entry lt there)
      m h.0 (All-lookup m h.1),
)
  where
    skip :
        (b w : ℕ) (m : List (ℕ × ℕ)) (entry : ℕ × ℕ)
        → b < entry.0
        → lookup entry.0 m ≡ some entry.1
        → lookup entry.0 ((b, w) ∷ m) ≡ some entry.1
    skip b w m entry lt there = ground arith

All-keys :
    (P : ℕ → Type 0) (m : List (ℕ × ℕ))
    → All (λ entry. P entry.0) m
    → All P (map (λ entry. entry.0) m)
All-keys P [] h = tt
All-keys P (e ∷ m) h = (h.0, All-keys P m h.1)

AllPairs-keys :
    (m : List (ℕ × ℕ)) → AllPairs (λ a b. a.0 < b.0) m → AllPairs ◌<◌ (map (λ entry. entry.0) m)
AllPairs-keys [] h = tt
AllPairs-keys (e ∷ m) h = (All-keys (λ k. e.0 < k) m h.0, AllPairs-keys m h.1)

-- A position between characters.
abbrev pub IsSafe : List (List ℕ) → List ℕ → List (ℕ × ℕ) → ℕ → Type 0
IsSafe pieces offsets safe b =
    (b ≤ length pieces)
    × (characters : ℕ) × (lookup b safe ≡ some characters)
    × (get_elem? offsets b ≡ some (length (concat (take b pieces))))
    × Prefix clean pieces b characters

Entry-IsSafe :
    (pieces : List (List ℕ)) (offsets : List ℕ) (safe : List (ℕ × ℕ)) (entry : ℕ × ℕ)
    → Offsets 0 pieces offsets
    → lookup entry.0 safe ≡ some entry.1
    → Entry 0 0 clean pieces entry
    → IsSafe pieces (0 ∷ offsets) safe entry.0
Entry-IsSafe pieces offsets safe entry o there (j, key, inside, more, (text, d, count), total) =
    let at : suc j ≡ entry.0 = omega arith in
    subst (IsSafe pieces (0 ∷ offsets) safe) at (
      omega arith,
      more,
      ap (λ (b : ℕ). lookup b safe) at ∙ there ∙ ap some (omega arith),
      o j inside ∙ ap some (omega arith),
      (text, d, count),
    )

after-zero : (entry : ℕ × ℕ) (j : ℕ) → entry.0 ≡ 0 + suc j → 0 < entry.0
after-zero entry j e = omega arith

scan-IsSafe :
    (piece : List ℕ) (pieces : List (List ℕ)) (offsets : List ℕ) (safe : List (ℕ × ℕ))
    → scan 0 0 0 clean (piece ∷ pieces) ≡ ok (offsets, safe)
    → AllPairs ◌<◌ (map (λ entry. entry.0) ((0, 0) ∷ safe))
      × EndsAt (length (piece ∷ pieces)) (map (λ entry. entry.0) ((0, 0) ∷ safe))
      × All
          (IsSafe (piece ∷ pieces) (0 ∷ offsets) ((0, 0) ∷ safe))
          (map (λ entry. entry.0) ((0, 0) ∷ safe))
unfolding lookup
scan-IsSafe piece pieces offsets safe s =
    let (entries, ascending) = scan-Entries 0 0 0 clean (piece ∷ pieces) offsets safe s in
    let pairs : AllPairs (λ a b. a.0 < b.0) ((0, 0) ∷ safe) = (
      All-map
          (λ (entry : ℕ × ℕ) (f : Entry 0 0 clean (piece ∷ pieces) entry). after-zero entry f.0 f.1)
          safe entries,
      ascending,
    ) in
    (
      AllPairs-keys ((0, 0) ∷ safe) pairs,
      EndsAt-cons (length (piece ∷ pieces)) 0 (map (λ entry. entry.0) safe) (
          subst (λ (n : ℕ). EndsAt n (map (λ entry. entry.0) safe)) (omega arith)
            (scan-EndsAt 0 0 0 clean piece pieces offsets safe s)),
      (
        (omega arith, 0, refl, refl, ([], decode_nil clean, refl)),
        All-keys (IsSafe (piece ∷ pieces) (0 ∷ offsets) ((0, 0) ∷ safe)) safe (
            All-map₂
              (λ (entry : ℕ × ℕ) (there : lookup entry.0 ((0, 0) ∷ safe) ≡ some entry.1)
                  (f : Entry 0 0 clean (piece ∷ pieces) entry).
                Entry-IsSafe (piece ∷ pieces) offsets ((0, 0) ∷ safe) entry
                  (scan-Offsets 0 0 0 clean (piece ∷ pieces) offsets safe s) there f)
              safe (All-lookup ((0, 0) ∷ safe) pairs).1 entries),
      ),
    )

-- What the windows rely on.
abbrev pub AreSafe : List (List ℕ) → List ℕ × List (ℕ × ℕ) → Type 0
AreSafe pieces r =
    AllPairs ◌<◌ (map (λ entry. entry.0) r.1)
    × EndsAt (length pieces) (map (λ entry. entry.0) r.1)
    × All (IsSafe pieces r.0 r.1) (map (λ entry. entry.0) r.1)
    × IsSafe pieces r.0 r.1 0

pub safe_token_boundaries-AreSafe :
    (piece : List ℕ) (pieces : List (List ℕ)) (r : List ℕ × List (ℕ × ℕ))
    → safe_token_boundaries (piece ∷ pieces) ≡ ok r
    → AreSafe (piece ∷ pieces) r
unfolding safe_token_boundaries
safe_token_boundaries-AreSafe piece pieces r e =
    let (first, s, done) = >>=-eq-ok (scan 0 0 0 clean (piece ∷ pieces)) _ e in
    let (ascending, ends, safe) = scan-IsSafe piece pieces first.0 first.1 s in
    subst (AreSafe (piece ∷ pieces)) (ok-injective done) (ascending, ends, safe, safe.0)

scan-ok :
    (index offset characters : ℕ) (buffer : Buffer) (pieces : List (List ℕ)) (text : List ℕ)
    → Decodes buffer (concat pieces) clean text
    → (r : List ℕ × List (ℕ × ℕ)) × (scan index offset characters buffer pieces ≡ ok r)
unfolding scan
scan-ok index offset characters buffer [] text d = (
  ([], []),
  subst (λ (b : Buffer). scan index offset characters b [] ≡ ok ([], []))
      (sym (decode_nil_inv buffer clean text d).0) refl,
)
scan-ok index offset characters buffer (piece ∷ pieces) text d =
    let (after, out, more, first, rest) = Decodes-split piece (concat pieces) buffer clean text d in
    let (r, s) =
      scan-ok (suc index) (offset + length piece) (characters + length out) after pieces more
        rest in
    (
      (
        (offset + length piece) ∷ r.0,
        if is_clean after then (suc index, characters + length out) ∷ r.1 else r.1,
      ),
      rw first (rw s refl),
    )

pub safe_token_boundaries-ok :
    (pieces : List (List ℕ)) (text : List ℕ)
    → Decodes clean (concat pieces) clean text
    → (r : List ℕ × List (ℕ × ℕ)) × (safe_token_boundaries pieces ≡ ok r)
unfolding safe_token_boundaries
safe_token_boundaries-ok pieces text d =
    let (r, s) = scan-ok 0 0 0 clean pieces text d in ((0 ∷ r.0, (0, 0) ∷ r.1), rw s refl)
