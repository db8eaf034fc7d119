-- ===== src/Chunking/Tokenizer/Covering.antt =====
-- The rounds of the window loop cover the text.
use mathlib.Core.Path.{subst}
use ragbench_kr_implementati.Prelude.{
  ℕ, zero, suc, ◌+◌, ◌≤◌, ◌<◌, ◌≡◌, refl, sym, ap, ◌∙◌, true, false, List, [], ◌∷◌, map, some,
  arith, ltb, leb, ◌==◌, length, take, Bool-cases, inl, inr, ◌⊎◌, lt→ltb, ==_iff,
}
use ragbench_kr_implementati.Prelude.Result.{ok, ok-injective}
use ragbench_kr_implementati.Prelude.Assoc.{nat_key, lookup}
use ragbench_kr_implementati.Chunking.Utf8.{clean}
use ragbench_kr_implementati.Chunking.Utf8.Decoding.{Decodes, decode_nil_inv}
use ragbench_kr_implementati.Chunking.Tokenizer.{
  TokenWindow, concat, found, cut, window_end, next_start, windows_from, bisect_right, bisect_back,
}
use ragbench_kr_implementati.Chunking.Tokenizer.Bisection.{window_end-ok, next_start-ok}
use ragbench_kr_implementati.Chunking.Tokenizer.Safety.{IsSafe, AreSafe}
use ragbench_kr_implementati.Chunking.Tokenizer.Slices.{slice, cut-ok}

-- A window of the text over the tokens from `start` on, after `from` characters.
abbrev pub Spans : List ℕ → ℕ → ℕ → ℕ → TokenWindow → Type 0
Spans text count start from window =
    (window.token_start ≡ start)
    × (start < window.token_end)
    × (window.token_end ≤ count)
    × (window.char_start ≡ from)
    × (window.char_start ≤ window.char_end)
    × (window.char_end ≤ length text)
    × (window.content ≡ slice text window.char_start window.char_end)

-- The windows from `start` on reach the last of `count` tokens and the end of the text; each starts after
-- the one before it, with no gap, and shares at least `overlap` tokens with it.
abbrev pub Covers : List ℕ → ℕ → ℕ → ℕ → ℕ → List TokenWindow → Type 0
Covers text count overlap start from [] = (start ≡ count) × (from ≡ length text)
Covers text count overlap start from (window ∷ []) =
    Spans text count start from window
    × (window.token_end ≡ count)
    × (window.char_end ≡ length text)
Covers text count overlap start from (window ∷ next ∷ windows) =
    Spans text count start from window
    × (start < next.token_start)
    × (next.token_start + overlap ≤ window.token_end)
    × (next.char_start ≤ window.char_end)
    × Covers text count overlap next.token_start next.char_start (next ∷ windows)

Covers-at :
    (text : List ℕ) (count overlap next onward : ℕ) (v : TokenWindow) (windows : List TokenWindow)
    → v.token_start ≡ next
    → v.char_start ≡ onward
    → Covers text count overlap next onward (v ∷ windows)
    → Covers text count overlap v.token_start v.char_start (v ∷ windows)
Covers-at text count overlap next onward v windows e f h =
    subst (λ (n : ℕ). Covers text count overlap n v.char_start (v ∷ windows)) (sym e)
      (subst (λ (n : ℕ). Covers text count overlap next n (v ∷ windows)) (sym f) h)

take_all : (pieces : List (List ℕ)) → take (length pieces) pieces ≡ pieces
take_all [] = refl
take_all (piece ∷ pieces) = ap (λ (r : List (List ℕ)). piece ∷ r) (take_all pieces)

-- No characters precede the first token, and all precede the position after the last.
pub IsSafe-zero :
    (pieces : List (List ℕ)) (offsets : List ℕ) (safe : List (ℕ × ℕ))
    (s : IsSafe pieces offsets safe 0)
    → s.1 ≡ 0
IsSafe-zero pieces offsets safe (_, from, _, _, (before, d, c)) =
    c ∙ ap length (sym (decode_nil_inv clean clean before d).1)

IsSafe-last :
    (pieces : List (List ℕ)) (offsets text : List ℕ) (safe : List (ℕ × ℕ))
    → Decodes clean (concat pieces) clean text
    → (s : IsSafe pieces offsets safe (length pieces)) → s.1 ≡ length text
IsSafe-last pieces offsets text safe d (_, to, _, _, (before, e, c)) =
    let whole =
      subst (λ (p : List (List ℕ)). Decodes clean (concat p) clean before) (take_all pieces) e in
    c ∙ ap (λ r. length r.1) (ok-injective (sym whole ∙ d))

Covers-cons :
    (text : List ℕ) (count overlap start from next onward : ℕ) (window : TokenWindow)
    (windows : List TokenWindow)
    → Spans text count start from window
    → start < next
    → next + overlap ≤ window.token_end
    → next < count
    → onward ≤ window.char_end
    → Covers text count overlap next onward windows
    → Covers text count overlap start from (window ∷ windows)
Covers-cons text count overlap start from next onward window [] s a b c o h = absurd (omega arith)
Covers-cons text count overlap start from next onward window (v ∷ []) s a b c o h = (
  s,
  omega arith,
  omega arith,
  omega arith,
  Covers-at text count overlap next onward v [] h.0.0 h.0.3 h,
)
Covers-cons text count overlap start from next onward window (v ∷ w ∷ windows) s a b c o h = (
  s,
  omega arith,
  omega arith,
  omega arith,
  Covers-at text count overlap next onward v (w ∷ windows) h.0.0 h.0.3 h,
)

-- The window that a round makes.
abbrev made : List ℕ → ℕ → ℕ → ℕ → ℕ → TokenWindow
made content start end from to = record {
  content = content;
  token_start = start;
  token_end = end;
  char_start = from;
  char_end = to;
}

module _ (payload offsets : List ℕ) (safe : List (ℕ × ℕ)) (count size overlap rounds start end : ℕ)
    (content : List ℕ) (from to : ℕ) (more : ltb start count ≡ true)
    (ends : window_end (map (λ entry. entry.0) safe) count size overlap start ≡ ok end)
    (there : cut payload offsets start end ≡ ok content) (first : lookup start safe ≡ some from)
    (last : lookup end safe ≡ some to) where
  windows_from_last :
      (end == count) ≡ true
      → windows_from payload offsets safe count size overlap (suc rounds) start
        ≡ ok (made content start end from to ∷ [])
  unfolding windows_from
  windows_from_last e =
      rw (more, windows_from) (rw ends (rw there (rw first (rw last (rw e refl)))))

  windows_from_more :
      (next : ℕ) (windows : List TokenWindow)
      → (end == count) ≡ false
      → next_start (map (λ entry. entry.0) safe) overlap end ≡ ok next
      → leb next start ≡ false
      → windows_from payload offsets safe count size overlap rounds next ≡ ok windows
      → windows_from payload offsets safe count size overlap (suc rounds) start
        ≡ ok (made content start end from to ∷ windows)
  unfolding windows_from
  windows_from_more next windows e n p rest =
      rw (more, windows_from)
        (rw ends (rw there (rw first (rw last (rw e (rw n (rw p (rw rest refl))))))))

module _ (pieces : List (List ℕ)) (text : List ℕ) (size overlap : ℕ) (positive : 0 < size)
    (decodes : Decodes clean (concat pieces) clean text) (r : List ℕ × List (ℕ × ℕ))
    (are_safe : AreSafe pieces r) where
  pub windows_from-Covers :
      (rounds start : ℕ)
      → (s : IsSafe pieces r.0 r.1 start) → start < length pieces
      → length pieces ≤ rounds + start
      → (windows : List TokenWindow) × (windows_from
            (concat pieces)
            r.0
            r.1
            (length pieces)
            size
            overlap
            rounds
            start
          ≡ ok windows)
        × Covers text (length pieces) overlap start s.1 windows
  windows_from-Covers zero start s more enough = absurd (omega arith)
  windows_from-Covers (suc rounds) start s more enough =
      let boundaries = map (λ entry. entry.0) r.1 in
      let (end, ends, (safe_end, after, inside), stop) =
        window_end-ok (IsSafe pieces r.0 r.1) boundaries (length pieces) overlap start are_safe.0
          are_safe.1 are_safe.2 size positive more in
      let (content, there, is_slice, ordered, within) =
        cut-ok pieces r.0 text r.1 start end decodes s safe_end (omega arith) in
      let window = made content start end s.1 safe_end.1 in
      let spans : Spans text (length pieces) start s.1 window =
        (refl, after, inside, refl, ordered, within, is_slice) in
      elim (Bool-cases (end == length pieces)) [
        | inl full ↦ (
          window ∷ [],
          windows_from_last (concat pieces) r.0 r.1 (length pieces) size overlap rounds start end
              content s.1 safe_end.1 (lt→ltb _ _ more) ends there s.2 safe_end.2 full,
          (
            spans,
            (==_iff end (length pieces)).0 full,
            at_end end safe_end ((==_iff end (length pieces)).0 full),
          ),
        )
        | inr left ↦
            let (next, found, safe_next, later, overlaps) =
              next_start-ok (IsSafe pieces r.0 r.1) boundaries (length pieces) overlap start
                are_safe.0 are_safe.1 are_safe.2 end (still end left stop) in
            let below : next < length pieces = ground arith in
            let (_, _, _, onward, _) =
              cut-ok pieces r.0 text r.1 next end decodes safe_next safe_end (omega arith) in
            let (windows, rest, covers) =
              windows_from-Covers rounds next safe_next below (omega arith) in
            (
              window ∷ windows,
              windows_from_more (concat pieces) r.0 r.1 (length pieces) size overlap rounds start
                  end content s.1 safe_end.1 (lt→ltb _ _ more) ends there s.2 safe_end.2 next
                  windows left found (ground arith) rest,
              Covers-cons text (length pieces) overlap start s.1 next safe_next.1 window windows
                  spans later overlaps below onward covers,
            )
      ]
    where
      at_end :
          (end : ℕ) (safe_end : IsSafe pieces r.0 r.1 end)
          → end ≡ length pieces
          → safe_end.1 ≡ length text
      at_end end safe_end full =
          IsSafe-last pieces r.0 text r.1 decodes (subst (IsSafe pieces r.0 r.1) full safe_end)

      still :
          (end : ℕ)
          → (end == length pieces) ≡ false
          → (end ≡ length pieces)
            ⊎ (bisect_right (map (λ entry. entry.0) r.1) start
                < bisect_back (map (λ entry. entry.0) r.1) end overlap)
          → bisect_right (map (λ entry. entry.0) r.1) start
            < bisect_back (map (λ entry. entry.0) r.1) end overlap
      still end left (inl full) = absurd (ground arith)
      still end left (inr h) = h
