-- ===== src/Chunking/Tokenizer/Bisection.antt =====
-- The search among the safe boundaries: what the bisection gives, and where a window can end.
use mathlib.Core.Path.{subst}
use ragbench_kr_implementati.Prelude.{
  ℕ, zero, suc, ◌+◌, ◌-◌, ◌≤◌, ◌<◌, min, max, ◌≡◌, refl, false, ◌&&◌, ◌⊎◌, inl, inr, List, [], ◌∷◌,
  some, arith, ltb, leb, ◌==◌, length, drop, All, AllPairs, All-map₂, Bool-cases,
}
use ragbench_kr_implementati.Prelude.Result.{ok}
use ragbench_kr_implementati.Chunking.Tokenizer.{
  get_elem?, bisect_right, bisect_back, extend, window_end, next_start,
}

-- The last boundary is the number of tokens.
abbrev pub EndsAt : ℕ → List ℕ → Type 0
EndsAt count [] = ⊥
EndsAt count (b ∷ []) = b ≡ count
EndsAt count (b ∷ c ∷ bs) = EndsAt count (c ∷ bs)

pub bisect_right-le : (bs : List ℕ) (x : ℕ) → bisect_right bs x ≤ length bs
unfolding bisect_right
bisect_right-le [] x = omega arith
bisect_right-le (b ∷ bs) x = ground (arith, bisect_right-le bs x)

-- A boundary before the insertion point is not above the value.
pub bisect_right_before :
    (bs : List ℕ) (x i : ℕ) → i < bisect_right bs x → (b : ℕ) × (get_elem? bs i ≡ some b) × (b ≤ x)
unfolding bisect_right
bisect_right_before [] x i h = absurd (omega arith)
bisect_right_before (b ∷ bs) x zero h = (b, refl, ground arith)
bisect_right_before (b ∷ bs) x (suc i) h = bisect_right_before bs x i (ground arith)

get_above : (a : ℕ) (bs : List ℕ) (i b : ℕ) → All (λ c. a < c) bs → get_elem? bs i ≡ some b → a < b
get_above a [] i b h e = absurd (ground arith)
get_above a (c ∷ bs) zero b h e = ground arith
get_above a (c ∷ bs) (suc i) b h e = get_above a bs i b h.1 e

-- A boundary from the insertion point on is above it.
pub bisect_right_after :
    (bs : List ℕ) (x i b : ℕ)
    → AllPairs ◌<◌ bs
    → bisect_right bs x ≤ i
    → get_elem? bs i ≡ some b
    → x < b
unfolding bisect_right
bisect_right_after [] x i b p h e = absurd (ground arith)
bisect_right_after (a ∷ bs) x zero b p h e = ground arith
bisect_right_after (a ∷ bs) x (suc i) b p h e = elim (Bool-cases (leb a x)) [
  | inl below ↦ bisect_right_after bs x i b p.1 (ground arith) e
  | inr above ↦ ground (arith, get_above a bs i b p.0 e)
]

All-drop :
    (x : ℕ) (cs : List ℕ) (i : ℕ)
    → ((j b : ℕ) → i ≤ j → get_elem? cs j ≡ some b → x < b)
    → All (λ b. x < b) (drop i cs)
All-drop x [] zero f = tt
All-drop x [] (suc i) f = tt
All-drop x (c ∷ cs) zero f =
    (f 0 c (omega arith) refl, All-drop x cs zero (λ j b l e. f (suc j) b (omega arith) e))
All-drop x (c ∷ cs) (suc i) f = All-drop x cs i (λ j b l e. f (suc j) b (omega arith) e)

All-after :
    (bs : List ℕ) (x i : ℕ) → AllPairs ◌<◌ bs → bisect_right bs x ≤ i → All (λ b. x < b) (drop i bs)
All-after bs x i p h =
    All-drop x bs i (λ j b lower e. bisect_right_after bs x j b p (omega arith) e)

EndsAt-drop :
    (count i : ℕ) (bs : List ℕ) → i < length bs → EndsAt count bs → EndsAt count (drop i bs)
EndsAt-drop count zero (b ∷ bs) h e = e
EndsAt-drop count zero [] h e = e
EndsAt-drop count (suc i) [] h e = e
EndsAt-drop count (suc i) (b ∷ []) h e = absurd (omega arith)
EndsAt-drop count (suc i) (b ∷ c ∷ bs) h e = EndsAt-drop count i (c ∷ bs) (omega arith) e

-- An ascending list ends above any value that is below its end.
bisect_right-lt :
    (bs : List ℕ) (x count : ℕ) → EndsAt count bs → x < count → bisect_right bs x < length bs
unfolding bisect_right
bisect_right-lt [] x count e h = absurd e
bisect_right-lt (b ∷ []) x count e h = ground arith
bisect_right-lt (b ∷ c ∷ bs) x count e h = ground (arith, bisect_right-lt (c ∷ bs) x count e h)

All-le : (count : ℕ) (bs : List ℕ) → AllPairs ◌<◌ bs → EndsAt count bs → All (λ b. b ≤ count) bs
All-le count [] p e = tt
All-le count (b ∷ []) p e = (omega arith, tt)
All-le count (b ∷ c ∷ bs) p e =
    let later = All-le count (c ∷ bs) p.1 e in (omega (arith, later.0, p.0.0), later)

module _ (P : ℕ → Type 0) where
  All-last : (count : ℕ) (bs : List ℕ) → EndsAt count bs → All P bs → P count
  All-last count [] e h = absurd e
  All-last count (b ∷ []) e h = subst P e h.0
  All-last count (b ∷ c ∷ bs) e h = All-last count (c ∷ bs) e h.1

  All-from : (i : ℕ) (bs : List ℕ) → All P bs → All P (drop i bs)
  All-from zero bs h = h
  All-from (suc i) [] h = tt
  All-from (suc i) (b ∷ bs) h = All-from i bs h.1

  All-get : (bs : List ℕ) (i b : ℕ) → All P bs → get_elem? bs i ≡ some b → P b
  All-get [] i b h e = absurd (ground arith)
  All-get (c ∷ bs) zero b h e = let same : c ≡ b = cc in subst P same h.0
  All-get (c ∷ bs) (suc i) b h e = All-get bs i b h.1 e

bisect_back-suc :
    (bs : List ℕ) (end overlap i : ℕ)
    → bisect_back bs end overlap ≡ suc i
    → (overlap ≤ end) × (bisect_right bs (end - overlap) ≡ suc i)
unfolding bisect_back
bisect_back-suc bs end overlap i e = elim (Bool-cases (ltb end overlap)) [
  | inl below ↦ absurd (ground arith)
  | inr enough ↦ (ground arith, ground arith)
]

next_start-at :
    (bs : List ℕ) (overlap end i next : ℕ)
    → bisect_back bs end overlap ≡ suc i
    → get_elem? bs i ≡ some next
    → next_start bs overlap end ≡ ok next
unfolding next_start
next_start-at bs overlap end i next e there = rw (e, next_start) (rw there refl)

-- The safe boundaries of `count` tokens, each with the property that makes it safe.
module _ (P : ℕ → Type 0) (bs : List ℕ) (count overlap start : ℕ) (ascending : AllPairs ◌<◌ bs)
    (ends : EndsAt count bs) (are_safe : All P bs) where
  abbrev IsEnd : ℕ → Type 0
  IsEnd end = P end × (start < end) × (end ≤ count)

  extend-ok :
      (next_boundary : ℕ) (later : List ℕ)
      → All IsEnd later
      → EndsAt count later
      → (end : ℕ) × (extend bs count overlap next_boundary later ≡ ok end)
        × IsEnd end
        × ((end ≡ count) ⊎ (next_boundary < bisect_back bs end overlap))
  unfolding extend
  extend-ok next_boundary [] h e = absurd e
  extend-ok next_boundary (end ∷ []) h e =
      let full : ltb end count ≡ false = ground arith in (end, rw full refl, h.0, inl e)
  extend-ok next_boundary (end ∷ c ∷ later) h e =
      elim (Bool-cases (ltb end count && leb (bisect_back bs end overlap) next_boundary)) [
        | inl further ↦ rw further (extend-ok next_boundary (c ∷ later) h.1 e)
        | inr stop ↦ (end, rw stop refl, h.0, stopped end h.0.2 stop)
      ]
    where
      stopped :
          (end : ℕ)
          → end ≤ count
          → (ltb end count && leb (bisect_back bs end overlap) next_boundary) ≡ false
          → (end ≡ count) ⊎ (next_boundary < bisect_back bs end overlap)
      stopped end le stop = elim (Bool-cases (ltb end count)) [
        | inl below ↦ inr (ground arith)
        | inr full ↦ inl (ground arith)
      ]

  -- A window ends at a safe boundary after its start.
  pub window_end-ok :
      (size : ℕ)
      → 0 < size
      → start < count
      → (end : ℕ) × (window_end bs count size overlap start ≡ ok end)
        × IsEnd end
        × ((end ≡ count) ⊎ (bisect_right bs start < bisect_back bs end overlap))
  unfolding window_end
  window_end-ok size positive more = elim (Bool-cases (min (start + size) count == count)) [
    | inl full ↦
        (count, rw full refl, (All-last P count bs ends are_safe, more, omega arith), inl refl)
    | inr cut ↦
        let index = max (bisect_right bs start) (bisect_right bs (min (start + size) count) - 1) in
        let inside : index < length bs = omega (
          arith,
          bisect_right-lt bs start count ends more,
          bisect_right-le bs (min (start + size) count),
        ) in
        let safe = All-from P index bs are_safe in
        let above = All-after bs start index ascending (omega arith) in
        let below = All-from (λ b. b ≤ count) index bs (All-le count bs ascending ends) in
        rw cut (
          extend-ok (bisect_right bs start) (drop index bs)
            (All-map₂ (λ b (p : P b × (start < b)) (le : b ≤ count). (p.0, p.1, le)) (drop index bs)
              (All-map₂ (λ b (p : P b) (lt : start < b). (p, lt)) (drop index bs) safe above) below)
            (EndsAt-drop count index bs inside ends))
  ]

  -- The window after it starts at a safe boundary after the start, and the two overlap enough.
  pub next_start-ok :
      (end : ℕ)
      → bisect_right bs start < bisect_back bs end overlap
      → (next : ℕ) × (next_start bs overlap end ≡ ok next)
        × P next
        × (start < next)
        × (next + overlap ≤ end)
  unfolding next_start
  next_start-ok end h = at (bisect_back bs end overlap) h refl
    where
      at :
          (n : ℕ)
          → bisect_right bs start < n
          → bisect_back bs end overlap ≡ n
          → (next : ℕ) × (next_start bs overlap end ≡ ok next)
            × P next
            × (start < next)
            × (next + overlap ≤ end)
      at zero h e = absurd (omega arith)
      at (suc i) h e =
          let (enough, back) = bisect_back-suc bs end overlap i e in
          let (next, there, le) = bisect_right_before bs (end - overlap) i (omega arith) in
          (
            next,
            next_start-at bs overlap end i next e there,
            All-get P bs i next are_safe there,
            bisect_right_after bs start i next ascending (omega arith) there,
            omega arith,
          )
