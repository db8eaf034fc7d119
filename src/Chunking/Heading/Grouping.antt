-- ===== src/Chunking/Heading/Grouping.antt =====
-- Groups of blocks hold the blocks that they are made from.
use mathlib.Core.Path.{subst}
use ragbench_kr_implementati.Prelude.{
  ◌≡◌, refl, sym, Bool, true, false, ◌&&◌, ◌||◌, not, List, [], ◌∷◌, ◌++◌, arith, All, All-append,
  Bool-cases, inl, inr, filter_rows,
}
use ragbench_kr_implementati.Prelude.Assoc.{str_key}
use ragbench_kr_implementati.Prelude.Lookup.{All-front}
use ragbench_kr_implementati.Chunking.{DocumentBlock, ChunkRecord}
use ragbench_kr_implementati.Chunking.Json.{eq_list}
use ragbench_kr_implementati.Chunking.Fixed.{is_empty}
use ragbench_kr_implementati.Chunking.Fixed.Spans.{is_usable}
use ragbench_kr_implementati.Chunking.Fixed.Sources.{IsKept}
use ragbench_kr_implementati.Chunking.Heading.{Group, blocks_of, groups_from, groups_of}

All-back :
    (P : DocumentBlock → Type 0) (xs : List DocumentBlock) (y : DocumentBlock)
    → All P (xs ++ y ∷ [])
    → P y
All-back P [] y h = h.0
All-back P (x ∷ xs) y h = All-back P xs y h.1

-- The groups hold the blocks, in order.
groups_from_same :
    (first block : DocumentBlock) (others blocks : List DocumentBlock)
    → eq_list first.section_path block.section_path ≡ true
    → groups_from first others (block ∷ blocks) ≡ groups_from first (others ++ block ∷ []) blocks
unfolding groups_from
groups_from_same first block others blocks e = rw (e, groups_from) refl

groups_from_new :
    (first block : DocumentBlock) (others blocks : List DocumentBlock)
    → eq_list first.section_path block.section_path ≡ false
    → groups_from first others (block ∷ blocks)
      ≡ record { first = first; others = others } ∷ groups_from block [] blocks
unfolding groups_from
groups_from_new first block others blocks e = rw (e, groups_from) refl

module _ (P : DocumentBlock → Type 0) where
  abbrev AllGroups : List Group → Type 0
  AllGroups groups = All (λ (group : Group). All P (blocks_of group)) groups

  groups_from-All :
      (first : DocumentBlock) (others blocks : List DocumentBlock)
      → All P (first ∷ others)
      → All P blocks
      → All (λ (group : Group). All P (blocks_of group)) (groups_from first others blocks)
  unfolding groups_from
  groups_from-All first others [] h k = (h, tt)
  groups_from-All first others (block ∷ blocks) h k =
      elim (Bool-cases (eq_list first.section_path block.section_path)) [
        | inl same ↦ subst AllGroups (sym (groups_from_same first block others blocks same)) (
            groups_from-All first (others ++ block ∷ []) blocks
              (h.0, All-append P others (block ∷ []) h.1 (k.0, tt)) k.1)
        | inr new ↦
            subst AllGroups (sym (groups_from_new first block others blocks new))
              (h, groups_from-All block [] blocks (k.0, tt) k.1)
      ]

  All-groups_from :
      (first : DocumentBlock) (others blocks : List DocumentBlock)
      → All (λ (group : Group). All P (blocks_of group)) (groups_from first others blocks)
      → All P (first ∷ others) × All P blocks
  unfolding groups_from
  All-groups_from first others [] h = (h.0, tt)
  All-groups_from first others (block ∷ blocks) h =
      elim (Bool-cases (eq_list first.section_path block.section_path)) [
        | inl same ↦
            let (grown, rest) =
              All-groups_from first (others ++ block ∷ []) blocks
                (subst AllGroups (groups_from_same first block others blocks same) h) in
            (
              (grown.0, All-front P others (block ∷ []) grown.1),
              (All-back P others block grown.1, rest),
            )
        | inr new ↦
            let (one, more) = subst AllGroups (groups_from_new first block others blocks new) h in
            let (start, rest) = All-groups_from block [] blocks more in (one, (start.0, rest))
      ]

  pub groups_of-All :
      (blocks : List DocumentBlock)
      → All P blocks
      → All (λ (group : Group). All P (blocks_of group)) (groups_of blocks)
  unfolding groups_of
  groups_of-All [] h = tt
  groups_of-All (block ∷ blocks) h = groups_from-All block [] blocks (h.0, tt) h.1

  pub All-groups_of :
      (blocks : List DocumentBlock)
      → All (λ (group : Group). All P (blocks_of group)) (groups_of blocks)
      → All P blocks
  unfolding groups_of
  All-groups_of [] h = tt
  All-groups_of (block ∷ blocks) h =
      let (first, rest) = All-groups_from block [] blocks h in (first.0, rest)

  -- What holds of the blocks that a comprehension keeps, holds of those that pass its test.
  pub unfilter :
      (p : DocumentBlock → Bool) (blocks : List DocumentBlock)
      → All P (filter_rows p blocks)
      → All (λ block. p block ≡ true → P block) blocks
  unfolding filter_rows
  unfilter p [] h = tt
  unfilter p (block ∷ blocks) h = elim (Bool-cases (p block)) [
    | inl keep ↦
        let (one, rest) : P block × All P (filter_rows p blocks) = rw keep at h in
        (λ _. one, unfilter p blocks rest)
    | inr drop ↦ (λ usable. absurd (cc), unfilter p blocks (rw drop at h))
  ]

neither : (a b : Bool) → not (a || b) ≡ true → (not a && not b) ≡ true
neither a b h = ground arith

pub usable-IsKept :
    (records : List ChunkRecord) (blocks : List DocumentBlock)
    → All
        (λ (block : DocumentBlock).
          (not block.is_boilerplate && not (is_empty block.content)) ≡ true
          → is_usable block ≡ true
          → IsKept records block.block_id)
        blocks
    → All (λ (block : DocumentBlock). is_usable block ≡ true → IsKept records block.block_id) blocks
usable-IsKept records [] h = tt
usable-IsKept records (block ∷ blocks) h =
    (λ usable. h.0 (neither _ _ usable) usable, usable-IsKept records blocks h.1)
