-- ===== src/Chunking/Heading/Numbering.antt =====
-- The chunks of the groups are numbered on.
use mathlib.Core.Path.{subst}
use ragbench_kr_implementati.Prelude.{
  ℕ, suc, ◌+◌, ◌≡◌, refl, sym, ap, true, List, [], ◌∷◌, ◌++◌, arith, length, All, All-map,
  Bool-cases, inl, inr, String,
}
use ragbench_kr_implementati.Prelude.Int.{pos}
use ragbench_kr_implementati.Prelude.Result.{ok, >>=-eq-ok, ok-injective}
use ragbench_kr_implementati.Prelude.Assoc.{str_key, contains}
use ragbench_kr_implementati.Prelude.Lookup.{or_left, or_right}
use ragbench_kr_implementati.Chunking.{DocumentBlock, ChunkRecord, new_chunk}
use ragbench_kr_implementati.Chunking.Utf8.RoundTrip.{IsText}
use ragbench_kr_implementati.Chunking.Json.{Object}
use ragbench_kr_implementati.Chunking.Fixed.{new_fixed, split}
use ragbench_kr_implementati.Chunking.Fixed.Spans.{is_usable}
use ragbench_kr_implementati.Chunking.Fixed.Blocks.{split_keeps}
use ragbench_kr_implementati.Chunking.Fixed.Sources.{IsKept, IsChunk, new_chunk-ok}
use ragbench_kr_implementati.Chunking.Heading.{
  HeadingAwareChunker, Group, blocks_of, join_contents, relabelled, relabel_all, split_groups,
}

-- The chunks are numbered from `n` on, and each is a valid record.
abbrev pub IsNumbered : ℕ → List ChunkRecord → Type 0
IsNumbered n [] = Unit
IsNumbered n (chunk ∷ chunks) = (chunk.ordinal ≡ pos n) × IsChunk chunk × IsNumbered (suc n) chunks

IsNumbered-append :
    (n : ℕ) (xs ys : List ChunkRecord)
    → IsNumbered n xs
    → IsNumbered (n + length xs) ys
    → IsNumbered n (xs ++ ys)
IsNumbered-append n [] ys h k = subst (λ (m : ℕ). IsNumbered m ys) (omega arith) k
IsNumbered-append n (x ∷ xs) ys h k = (
  h.0,
  h.1,
  IsNumbered-append (suc n) xs ys h.2 (subst (λ (m : ℕ). IsNumbered m ys) (omega arith) k),
)

IsKept-left : (xs ys : List ChunkRecord) (id : String) → IsKept xs id → IsKept (xs ++ ys) id
IsKept-left [] ys id h = absurd (cc)
IsKept-left (x ∷ xs) ys id h = elim (Bool-cases (contains id x.source_block_ids)) [
  | inl here ↦ or_left _ _ here
  | inr later ↦ or_right _ _ (IsKept-left xs ys id (rw later at h))
]

IsKept-right : (xs ys : List ChunkRecord) (id : String) → IsKept ys id → IsKept (xs ++ ys) id
IsKept-right [] ys id h = h
IsKept-right (x ∷ xs) ys id h = or_right _ _ (IsKept-right xs ys id h)

Kept-map :
    (xs ys : List ChunkRecord)
    → ((id : String) → IsKept xs id → IsKept ys id)
    → (blocks : List DocumentBlock)
    → All (λ (block : DocumentBlock). is_usable block ≡ true → IsKept xs block.block_id) blocks
    → All (λ (block : DocumentBlock). is_usable block ≡ true → IsKept ys block.block_id) blocks
Kept-map xs ys f [] h = tt
Kept-map xs ys f (block ∷ blocks) h =
    (λ usable. f block.block_id (h.0 usable), Kept-map xs ys f blocks h.1)

abbrev GroupKept : List ChunkRecord → Group → Type 0
GroupKept records group =
    All (λ (block : DocumentBlock). is_usable block ≡ true → IsKept records block.block_id)
      (blocks_of group)

GroupKept-right :
    (xs ys : List ChunkRecord) (group : Group) → GroupKept ys group → GroupKept (xs ++ ys) group
GroupKept-right xs ys group g =
    Kept-map ys (xs ++ ys) (λ id. IsKept-right xs ys id) (blocks_of group) g

module _ (canonical_json_hash : Object → String) (tokenizer_snapshot : List (String × String))
    (self : HeadingAwareChunker) where
  relabelled_fields :
      (section_path : List String) (token_base ordinal : ℕ) (candidate chunk : ChunkRecord)
      → relabelled canonical_json_hash tokenizer_snapshot self section_path token_base ordinal
          candidate
        ≡ chunk
      → (chunk.ordinal ≡ pos ordinal) × (candidate.source_block_ids ≡ chunk.source_block_ids)
  unfolding relabelled
  relabelled_fields section_path token_base ordinal candidate chunk e = (
    sym (ap (λ (row : ChunkRecord). row.ordinal) e),
    ap (λ (row : ChunkRecord). row.source_block_ids) e,
  )

  relabel_all-ok :
      (section_path : List String) (token_base ordinal : ℕ) (candidates chunks : List ChunkRecord)
      → relabel_all canonical_json_hash tokenizer_snapshot self section_path token_base ordinal
          candidates
        ≡ ok chunks
      → IsNumbered ordinal chunks
        × (length chunks ≡ length candidates)
        × ((id : String) → IsKept candidates id → IsKept chunks id)
  unfolding relabel_all
  relabel_all-ok section_path token_base ordinal [] chunks h =
      subst
        (λ (rows : List ChunkRecord).
          IsNumbered ordinal rows
          × (length rows ≡ 0)
          × ((id : String) → IsKept [] id → IsKept rows id))
        (ok-injective h) (tt, refl, λ id k. k)
  relabel_all-ok section_path token_base ordinal (candidate ∷ candidates) chunks h =
      let row =
        relabelled canonical_json_hash tokenizer_snapshot self section_path token_base ordinal
          candidate in
      let (chunk, made, after) = >>=-eq-ok (new_chunk row) _ h in
      let (later, rest, done) =
        >>=-eq-ok
          (relabel_all canonical_json_hash tokenizer_snapshot self section_path token_base
            (suc ordinal) candidates)
          _ after in
      let (same, valid) = new_chunk-ok row chunk made in
      let (number, ids) = relabelled_fields section_path token_base ordinal candidate chunk same in
      let (numbered, sized, kept) =
        relabel_all-ok section_path token_base (suc ordinal) candidates later rest in
      subst
        (λ (rows : List ChunkRecord).
          IsNumbered ordinal rows
          × (length rows ≡ length (candidate ∷ candidates))
          × ((id : String) → IsKept (candidate ∷ candidates) id → IsKept rows id))
        (ok-injective done)
        (
          (number, valid, numbered),
          ap suc sized,
          λ id. keep id candidate candidates chunk later ids (kept id),
        )
    where
      keep :
          (id : String) (candidate : ChunkRecord) (candidates : List ChunkRecord)
          (chunk : ChunkRecord) (later : List ChunkRecord)
          → candidate.source_block_ids ≡ chunk.source_block_ids
          → (IsKept candidates id → IsKept later id)
          → IsKept (candidate ∷ candidates) id
          → IsKept (chunk ∷ later) id
      keep id candidate candidates chunk later ids f h =
          elim (Bool-cases (contains id candidate.source_block_ids)) [
            | inl here ↦ or_left _ _ (subst (λ (l : List String). contains id l ≡ true) ids here)
            | inr there ↦ or_right _ _ (f (rw there at h))
          ]

  module _ (encode : List ℕ → List ℕ) (token_bytes : ℕ → List ℕ)
      (tokens_of_text : (text : List ℕ) → encode text ≡ [] → text ≡ []) where
    pub split_groups-ok :
        (ordinal token_base : ℕ) (groups : List Group) (records : List ChunkRecord)
        → All
            (λ (group : Group).
              All (λ (block : DocumentBlock). IsText block.content) (blocks_of group))
            groups
        → split_groups canonical_json_hash tokenizer_snapshot encode token_bytes self ordinal
            token_base groups
          ≡ ok records
        → IsNumbered ordinal records × All (GroupKept records) groups
    unfolding split_groups
    split_groups-ok ordinal token_base [] records texts h =
        subst (λ (rows : List ChunkRecord). IsNumbered ordinal rows × Unit {0}) (ok-injective h)
          (tt, tt)
    split_groups-ok ordinal token_base (group ∷ groups) records texts h =
        let (fixed, made, after) =
          >>=-eq-ok (new_fixed canonical_json_hash tokenizer_snapshot self.target_size self.overlap)
            _ h in
        let (candidates, cut, labelling) =
          >>=-eq-ok
            (split canonical_json_hash tokenizer_snapshot encode token_bytes fixed
              (blocks_of group))
            _ after in
        let (chunks, labelled, more) =
          >>=-eq-ok
            (relabel_all canonical_json_hash tokenizer_snapshot self group.first.section_path
              token_base ordinal candidates)
            _ labelling in
        let (rest, others, done) =
          >>=-eq-ok
            (split_groups canonical_json_hash tokenizer_snapshot encode token_bytes self
              (ordinal + length candidates)
              (token_base + length (encode (join_contents group.first group.others))) groups)
            _ more in
        let (numbered, sized, kept) =
          relabel_all-ok group.first.section_path token_base ordinal candidates chunks labelled in
        let (later, rest_kept) =
          split_groups-ok (ordinal + length candidates)
            (token_base + length (encode (join_contents group.first group.others))) groups rest
            texts.1 others in
        let here =
          split_keeps canonical_json_hash tokenizer_snapshot encode token_bytes tokens_of_text
            self.target_size self.overlap fixed (blocks_of group) candidates made texts.0 cut in
        subst
          (λ (rows : List ChunkRecord).
            IsNumbered ordinal rows × All (GroupKept rows) (group ∷ groups))
          (ok-injective done)
          (
            IsNumbered-append ordinal chunks rest numbered
                (subst (λ (n : ℕ). IsNumbered (ordinal + n) rest) (sym sized) later),
            (
              Kept-map candidates (chunks ++ rest) (λ id k. IsKept-left chunks rest id (kept id k))
                  (blocks_of group) here,
              All-map
                  (λ (other : Group) (g : GroupKept rest other).
                    GroupKept-right chunks rest other g)
                  groups rest_kept,
            ),
          )
