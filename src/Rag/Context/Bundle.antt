-- ===== src/Rag/Context/Bundle.antt =====
-- What a context bundle holds.
use mathlib.Core.Path.{subst}
use mathlib.Core.List.{Mem}
use ragbench_kr_implementati.Prelude.{
  ℕ, zero, suc, ◌*◌, ◌≡◌, ◌≢◌, ◌⊎◌, refl, ap, sym, ◌∙◌, true, String, List, [], ◌∷◌, map, length,
  take, drop, sum_of, arith, All, AllPairs, inl, inr,
}
use ragbench_kr_implementati.Prelude.Int.{ℤ, pos, ltb_ℤ, ltb_ℤ-ge, ◌≤ℤ◌, ◌<ℤ◌}
use ragbench_kr_implementati.Prelude.Float.{Float}
use ragbench_kr_implementati.Prelude.Text.{join, count_char, count_char-join}
use ragbench_kr_implementati.Prelude.Result.{ok, raise_if-eq-ok, >>=-eq-ok, ok-injective}
use ragbench_kr_implementati.Prelude.Sorting.{
  sorted, sorted-IsSorted, IsSorted-AllPairs, All-sorted, ascending_str,
}
use ragbench_kr_implementati.Prelude.Assoc.{str_key, contains, to_set}
use ragbench_kr_implementati.Prelude.Lookup.{contains-sorted, All-of_Mem}
use ragbench_kr_implementati.Rag.{RetrievedChunk, ContextItem, ContextBundle}
use ragbench_kr_implementati.Rag.Serialize.{serialize}
use ragbench_kr_implementati.Rag.Serialize.Sentinels.{serialize_markup}
use ragbench_kr_implementati.Rag.Context.{
  chunk_id_of, Filled, nothing_seen, dedupe, chunk_order, fill, build, citation_id_at,
}
use ragbench_kr_implementati.Rag.Context.Dedupe.{ids_of, dedupe_lem}
use ragbench_kr_implementati.Rag.Context.Filling.{records, texts, tokens, Filling, fill_lem}

module _ {F : Type 0} (encode : String → List ℕ) where
  texts_markup :
      (n index count : ℕ) (rows : List (RetrievedChunk F))
      → ((row : RetrievedChunk F) (id : String) → count_char n (serialize row id) ≡ 2)
      → sum_of (count_char n) (texts encode (take count (records encode index rows)))
        ≡ 2 * length (take count (records encode index rows))
  unfolding records
  texts_markup n index zero rows two = refl
  texts_markup n index (suc count) [] two = refl
  texts_markup n index (suc count) (row ∷ rows) two =
      omega (arith, two row (citation_id_at index), texts_markup n (suc index) count rows two)

module _ (float : Float) (encode : String → List ℕ) where
  open float use {F}

  -- The rows that the records are made of: hits in order, one for each chunk id.
  abbrev pub IsSelection : List (RetrievedChunk F) → List (RetrievedChunk F) → Type 0
  IsSelection hits rows =
      AllPairs (λ a b. chunk_id_of a ≢ chunk_id_of b) rows
      × AllPairs (λ a b. (chunk_order float).le a b ≡ true) rows
      × ((id : String) → contains id (ids_of rows) ≡ contains id (ids_of hits))
      × All (λ row. Mem row hits) rows

  -- The first `count` records make up the bundle.
  abbrev pub IsPrefixOf : List (ContextItem F) → ℕ → ContextBundle F → Type 0
  IsPrefixOf all_items count bundle =
      (bundle.items ≡ take count all_items)
      × (bundle.truncated_chunk_ids ≡ map (λ item. item.chunk_id) (drop count all_items))
      × (bundle.text ≡ join "\n" (texts encode bundle.items))
      × (bundle.token_count ≡ length (encode bundle.text))
      × (pos bundle.token_count ≤ℤ bundle.token_budget)
      × ((bundle.truncated_chunk_ids ≡ [])
          ⊎ (bundle.token_budget <ℤ tokens encode [] (take (suc count) all_items)))

  abbrev bundle_of : ℤ → Filled F → List String → ContextBundle F
  bundle_of token_budget filled duplicates = record {
    items = filled.included;
    text = join "\n" filled.serialized;
    token_count = length (encode (join "\n" filled.serialized));
    token_budget = token_budget;
    duplicate_chunk_ids = duplicates;
    truncated_chunk_ids = filled.truncated;
  }

  text_fits :
      (token_budget : ℤ) (rows : List (RetrievedChunk F)) (filled : Filled F)
      → encode "" ≡ []
      → pos 0 ≤ℤ token_budget
      → Filling encode token_budget 1 [] rows filled
      → pos (length (encode (join "\n" filled.serialized))) ≤ℤ token_budget
  unfolding join
  text_fits token_budget rows filled no_tokens enough r =
      let size = λ (parts : List String). pos (length (encode (join "\n" parts))) in
      let all_items = records encode 1 rows in
      elim r.fits [
        | inl empty ↦
            let nothing : filled.serialized ≡ [] =
              r.serialized_eq ∙ ap (λ (n : ℕ). texts encode (take n all_items)) empty in
            let zero_size : size filled.serialized ≡ pos 0 =
              ap size nothing ∙ ap (λ (tokens : List ℕ). pos (length tokens)) no_tokens in
            subst (λ (n : ℤ). n ≤ℤ token_budget) (sym zero_size) enough
        | inr fitting ↦ subst (λ (n : ℤ). n ≤ℤ token_budget) (sym (ap size r.serialized_eq)) fitting
      ]

  bundle_of-IsPrefixOf :
      (token_budget : ℤ) (rows : List (RetrievedChunk F)) (filled : Filled F)
      (duplicates : List String)
      → encode "" ≡ []
      → pos 0 ≤ℤ token_budget
      → (r : Filling encode token_budget 1 [] rows filled)
      → IsPrefixOf (records encode 1 rows) r.count (bundle_of token_budget filled duplicates)
  bundle_of-IsPrefixOf token_budget rows filled duplicates no_tokens enough r = (
    r.items_eq,
    r.truncated_eq,
    ap (join "\n") (r.serialized_eq ∙ sym (ap (texts encode) r.items_eq)),
    refl,
    text_fits token_budget rows filled no_tokens enough r,
    elim r.maximal [
      | inl whole ↦ inl (
          r.truncated_eq
          ∙ ap (λ (items : List (ContextItem F)). map (λ item. item.chunk_id) items) whole)
      | inr over ↦ inr over
    ],
  )

  -- When the empty text has no tokens, a bundle that is built is a prefix of the records of hits: the
  -- rows are hits as they were given, one for each chunk id, in the order of the sort key, numbered
  -- from one and serialized whole. The text is that of its items, and its tokens fit the budget; the ids that are cut off are
  -- those of the records after the prefix; and if any is cut off, the text with the next record
  -- exceeds the budget.
  pub build_lem :
      (hits : List (RetrievedChunk F)) (token_budget : ℤ) (bundle : ContextBundle F)
      → encode "" ≡ []
      → build float encode hits token_budget ≡ ok bundle
      → (rows : List (RetrievedChunk F)) × IsSelection hits rows
        × (count : ℕ) × IsPrefixOf (records encode 1 rows) count bundle
  unfolding build
  build_lem hits token_budget bundle no_tokens returned =
      let (enough, e) = raise_if-eq-ok (ltb_ℤ token_budget (pos 0)) _ _ returned in
      let ordered = sorted (chunk_order float) hits in
      let (deduped, unique, e₁) = >>=-eq-ok (dedupe nothing_seen ordered) _ e in
      let o = dedupe_lem ordered deduped unique in
      let f = fill_lem encode token_budget 1 [] deduped.unique in
      (
        deduped.unique,
        (
          o.linked.1,
          o.in_order (λ a b. (chunk_order float).le a b ≡ true)
              (IsSorted-AllPairs (chunk_order float) ordered
                (sorted-IsSorted (chunk_order float) hits)),
          λ id. o.same_ids id ∙ contains-sorted (chunk_order float) chunk_id_of id hits,
          o.all_kept (λ row. Mem row hits)
              (All-sorted (chunk_order float) (λ row. Mem row hits) hits
                (All-of_Mem hits (λ row m. m))),
        ),
        f.count,
        subst (IsPrefixOf (records encode 1 deduped.unique) f.count) (ok-injective e₁) (
            bundle_of-IsPrefixOf token_budget deduped.unique
              (fill encode token_budget 1 [] deduped.unique)
              (sorted ascending_str (to_set deduped.duplicates)) no_tokens
              (ltb_ℤ-ge token_budget (pos 0) enough) f),
      )

  -- A text holds two opening and two closing markup characters for each of its items: those of the
  -- item's sentinels.
  pub build_markup :
      (hits : List (RetrievedChunk F)) (token_budget : ℤ) (bundle : ContextBundle F)
      → encode "" ≡ []
      → build float encode hits token_budget ≡ ok bundle
      → (count_char 60 bundle.text ≡ 2 * length bundle.items)
        × (count_char 62 bundle.text ≡ 2 * length bundle.items)
  unfolding count_char
  build_markup hits token_budget bundle no_tokens returned =
      let (rows, _, count, is_prefix) = build_lem hits token_budget bundle no_tokens returned in
      let same = λ (n : ℕ). ap (count_char n) is_prefix.2 in
      let items = λ (n : ℕ).
        ap (λ (items : List (ContextItem F)). sum_of (count_char n) (texts encode items))
          is_prefix.0 in
      let sizes = ap length is_prefix.0 in
      (
        omega (
          arith,
          same 60,
          sizes,
          items 60,
          count_char-join 60 "\n" (texts encode bundle.items) refl,
          texts_markup encode 60 1 count rows (λ row id. (serialize_markup row id).0),
        ),
        omega (
          arith,
          same 62,
          sizes,
          items 62,
          count_char-join 62 "\n" (texts encode bundle.items) refl,
          texts_markup encode 62 1 count rows (λ row id. (serialize_markup row id).1),
        ),
      )
