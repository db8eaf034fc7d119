-- ===== src/Chunking/Fixed/Spans.antt =====
-- Where the blocks stand in the joined text, and that no window misses one.
use ragbench_kr_implementati.Prelude.{
  ℕ, zero, suc, ◌+◌, ◌≤◌, ◌<◌, ◌≡◌, refl, ap, ◌∙◌, Bool, true, false, ◌&&◌, ◌||◌, not, List, [],
  ◌∷◌, ◌++◌, map, some, arith, ltb, length, All, All-map, any, length-append, Bool-cases, inl, inr,
  if◌then◌else◌, filter_rows, String,
}
use ragbench_kr_implementati.Prelude.Assoc.{str_key, contains, self_key}
use ragbench_kr_implementati.Prelude.Lookup.{or_right}
use ragbench_kr_implementati.Chunking.{Text, DocumentBlock}
use ragbench_kr_implementati.Chunking.Tokenizer.{TokenWindow, get_elem?}
use ragbench_kr_implementati.Chunking.Tokenizer.Covering.{Covers}
use ragbench_kr_implementati.Chunking.Fixed.{Span, is_empty, source_from, overlapping}

-- A block that is cut into chunks.
abbrev pub is_usable : DocumentBlock → Bool
is_usable block = not (block.is_boilerplate || is_empty block.content)

-- A span stands within the text.
abbrev pub IsWithin : ℕ → ℕ → Span → Type 0
IsWithin first last span = (first ≤ span.start) × (span.start < span.end) × (span.end ≤ last)

nonempty : (t : Text) → is_empty t ≡ false → 0 < length t
unfolding is_empty
nonempty [] h = absurd (cc)
nonempty (c ∷ t) h = omega arith

widen : (a b c d : ℕ) (span : Span) → a ≤ b → c ≤ d → IsWithin b c span → IsWithin a d span
widen a b c d span h k w = (omega arith, w.1, omega arith)

pub source_from-IsWithin :
    (started : Bool) (position : ℕ) (blocks : List DocumentBlock)
    → All
        (IsWithin position (position + length (source_from started position blocks).0))
        (source_from started position blocks).1
unfolding source_from
source_from-IsWithin started position [] = tt
source_from-IsWithin started position (block ∷ blocks) =
    elim (Bool-cases (block.is_boilerplate || is_empty block.content)) [
      | inl skip ↦ rw skip (source_from-IsWithin started position blocks)
      | inr keep ↦ rw keep (
          kept started (λ end. source_from-IsWithin true end blocks)
            (nonempty block.content (ground arith)))
    ]
  where
    kept :
        (started : Bool)
        → ((end : ℕ)
            → All
                (IsWithin end (end + length (source_from true end blocks).0))
                (source_from true end blocks).1)
        → 0 < length block.content
        → All
            (IsWithin position (
              position
              + length (
                  (if started then 10 ∷ 10 ∷ [] else [])
                  ++ (block.content
                      ++ (source_from true
                          ((if started then position + 2 else position) + length block.content)
                          blocks).0))))
            (record {
              start = if started then position + 2 else position;
              end = (if started then position + 2 else position) + length block.content;
              block = block;
            }
              ∷ (source_from true
                  ((if started then position + 2 else position) + length block.content)
                  blocks).1)
    kept true ih some_text =
        let end = position + 2 + length block.content in
        let rest = source_from true end blocks in
        let whole = length-append {0} block.content rest.0 in
        (
          (omega arith, omega arith, omega arith),
          All-map
              (λ span w.
                widen position end (end + length rest.0) _ span (omega arith) (omega arith) w)
              rest.1 (ih end),
        )
    kept false ih some_text =
        let end = position + length block.content in
        let rest = source_from true end blocks in
        let whole = length-append {0} block.content rest.0 in
        (
          (omega arith, omega arith, omega arith),
          All-map
              (λ span w.
                widen position end (end + length rest.0) _ span (omega arith) (omega arith) w)
              rest.1 (ih end),
        )

-- What holds of every span's block, holds of every block that is cut.
pub All-source_from :
    (P : DocumentBlock → Type 0) (started : Bool) (position : ℕ) (blocks : List DocumentBlock)
    → All (λ (span : Span). P span.block) (source_from started position blocks).1
    → All (λ block. is_usable block ≡ true → P block) blocks
unfolding source_from
All-source_from P started position [] h = tt
All-source_from P started position (block ∷ blocks) h =
    elim (Bool-cases (block.is_boilerplate || is_empty block.content)) [
      | inl skip ↦ (
        λ usable. absurd (ground arith),
        All-source_from P started position blocks (rw skip at h),
      )
      | inr keep ↦
          let all : All (λ (span : Span). P span.block)
              (record {
                start = if started then position + 2 else position;
                end = (if started then position + 2 else position) + length block.content;
                block = block;
              }
                ∷ (source_from true
                    ((if started then position + 2 else position) + length block.content)
                    blocks).1) =
            rw keep at h in
          (λ _. all.0, All-source_from P true _ blocks all.1)
    ]

-- Some window overlaps each span of the text that the windows cover.
pub Covers-overlaps :
    (text : List ℕ) (count overlap start from : ℕ) (windows : List TokenWindow) (span : Span)
    → Covers text count overlap start from windows
    → from ≤ span.start
    → span.start < span.end
    → span.end ≤ length text
    → any
        (λ (window : TokenWindow). ltb window.char_start span.end && ltb span.start window.char_end)
        windows
      ≡ true
Covers-overlaps text count overlap start from [] span c h k l = absurd (omega arith)
Covers-overlaps text count overlap start from (window ∷ []) span c h k l = ground arith
Covers-overlaps text count overlap start from (window ∷ next ∷ windows) span c h k l =
    elim (Bool-cases (ltb window.char_start span.end && ltb span.start window.char_end)) [
      | inl here ↦ rw here refl
      | inr later ↦ rw later (
          Covers-overlaps text count overlap next.token_start next.char_start (next ∷ windows) span
            c.4 (ground arith) k l)
    ]

-- A row that passes a filter is found after it, by its key.
module _ {ℓ} {A : Type ℓ} (key : A → String) (p : A → Bool) where
  contains-filter_rows :
      (rows : List A) (i : ℕ) (row : A)
      → get_elem? rows i ≡ some row
      → p row ≡ true
      → contains (key row) (map key (filter_rows p rows)) ≡ true
  unfolding contains filter_rows
  contains-filter_rows [] i row e h = absurd (cc)
  contains-filter_rows (first ∷ rows) zero row e h =
      let same : first ≡ row = cc in rw same (rw h (rw (self_key (key row)) refl))
  contains-filter_rows (first ∷ rows) (suc i) row e h = elim (Bool-cases (p first)) [
    | inl keep ↦ rw keep (or_right _ _ (contains-filter_rows rows i row e h))
    | inr drop ↦ rw drop (contains-filter_rows rows i row e h)
  ]

map-map {ℓ κ μ} :
    {A : Type ℓ} {B : Type κ} {C : Type μ} (f : B → C) (g : A → B) (xs : List A)
    → map f (map g xs) ≡ map (λ x. f (g x)) xs
map-map f g [] = refl
map-map f g (x ∷ xs) = ap (λ r. f (g x) ∷ r) (map-map f g xs)

-- A window's sources name every block that it overlaps.
pub overlapping-contains :
    (spans : List Span) (first last i : ℕ) (span : Span)
    → get_elem? spans i ≡ some span
    → (ltb first span.end && ltb span.start last) ≡ true
    → contains span.block.block_id
        (map (λ (item : DocumentBlock). item.block_id) (overlapping spans first last))
      ≡ true
unfolding overlapping
overlapping-contains spans first last i span e h =
    ap (contains span.block.block_id) (
      map-map (λ (item : DocumentBlock). item.block_id) (λ (span : Span). span.block)
        (filter_rows (λ (span : Span). ltb first span.end && ltb span.start last) spans))
    ∙ contains-filter_rows (λ (span : Span). span.block.block_id)
        (λ (span : Span). ltb first span.end && ltb span.start last) spans i span e h
