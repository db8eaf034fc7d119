-- ===== src/Rag/Context/Filling.antt =====
-- The loop that includes the largest prefix of the records that fits the token budget.
use mathlib.Core.Path.{subst}
use mathlib.Core.List.{append_assoc, append-nil}
use ragbench_kr_implementati.Prelude.{
  ℕ, suc, ◌≡◌, ◌⊎◌, refl, ap, sym, ◌∙◌, false, String, List, [], ◌∷◌, ◌++◌, map, length, take, drop,
  Bool-cases, inl, inr,
}
use ragbench_kr_implementati.Prelude.Int.{ℤ, pos, ltb_ℤ-lt, ltb_ℤ-ge, ◌≤ℤ◌, ◌<ℤ◌}
use ragbench_kr_implementati.Prelude.Text.{join}
use ragbench_kr_implementati.Rag.{RetrievedChunk, ContextItem}
use ragbench_kr_implementati.Rag.Serialize.{serialize}
use ragbench_kr_implementati.Rag.Context.{
  chunk_id_of, Filled, new_item, citation_id_at, exceeds, fill,
}

module _ {F : Type 0} (encode : String → List ℕ) where
  -- The records of all the rows, numbered from `index` on.
  unfoldable pub records : ℕ → List (RetrievedChunk F) → List (ContextItem F)
  unfolding serialize citation_id_at
  records index [] = []
  records index (row ∷ rows) =
      new_item encode row (citation_id_at index) (serialize row (citation_id_at index))
      ∷ records (suc index) rows

  abbrev pub texts : List (ContextItem F) → List String
  texts items = map (λ item. item.serialized) items

  -- The tokens of the text of some records, after the `serialized` ones.
  abbrev pub tokens : List String → List (ContextItem F) → ℤ
  tokens serialized items = pos (length (encode (join "\n" (serialized ++ texts items))))

  pub records-ids :
      (index : ℕ) (rows : List (RetrievedChunk F))
      → map (λ item. item.chunk_id) (records index rows) ≡ map chunk_id_of rows
  unfolding records
  records-ids index [] = refl
  records-ids index (row ∷ rows) =
      ap (λ (ids : List String). row.hit.chunk_id ∷ ids) (records-ids (suc index) rows)

  -- The first `count` records are included, of which the text fits; with one more it does not.
  pub record Filling (token_budget : ℤ) (index : ℕ) (serialized : List String)
      (rows : List (RetrievedChunk F)) (filled : Filled F) : Type 0 where
    pub count : ℕ
    pub items_eq : filled.included ≡ take count (records index rows)
    pub serialized_eq : filled.serialized ≡ serialized ++ texts (take count (records index rows))
    pub truncated_eq :
        filled.truncated ≡ map (λ item. item.chunk_id) (drop count (records index rows))
    pub fits : (count ≡ 0) ⊎ (tokens serialized (take count (records index rows)) ≤ℤ token_budget)
    pub maximal :
        (drop count (records index rows) ≡ [])
        ⊎ (token_budget <ℤ tokens serialized (take (suc count) (records index rows)))

  Filling-after :
      (token_budget : ℤ) (index : ℕ) (serialized : List String) (row : RetrievedChunk F)
      (rows : List (RetrievedChunk F)) (rest : Filled F)
      → let text = serialize row (citation_id_at index) in
        exceeds encode token_budget serialized text ≡ false
        → Filling token_budget (suc index) (serialized ++ text ∷ []) rows rest
        → Filling token_budget index serialized (row ∷ rows) (record {
          included = new_item encode row (citation_id_at index) text ∷ rest.included;
          serialized = rest.serialized;
          truncated = rest.truncated;
        })
  unfolding records
  Filling-after token_budget index serialized row rows rest e r =
      let text = serialize row (citation_id_at index) in
      let item = new_item encode row (citation_id_at index) text in
      let longer =
        λ (items : List (ContextItem F)). append_assoc serialized (text ∷ []) (texts items) in
      let same = λ (items : List (ContextItem F)).
        ap (λ (parts : List String). pos (length (encode (join "\n" parts)))) (longer items) in
      record {
        count = suc r.count;
        items_eq = ap (λ (items : List (ContextItem F)). item ∷ items) r.items_eq;
        serialized_eq = r.serialized_eq ∙ longer (take r.count (records (suc index) rows));
        truncated_eq = r.truncated_eq;
        fits = inr (elim r.fits [
          | inl empty ↦ rw empty (ltb_ℤ-ge token_budget (tokens serialized (item ∷ [])) e)
          | inr fitting ↦
              subst (λ (n : ℤ). n ≤ℤ token_budget) (same (take r.count (records (suc index) rows)))
                fitting
        ]);
        maximal = elim r.maximal [
          | inl all_rows ↦ inl all_rows
          | inr over ↦ inr (
              subst (λ (n : ℤ). token_budget <ℤ n)
                (same (take (suc r.count) (records (suc index) rows))) over)
        ];
      }

  pub fill_lem :
      (token_budget : ℤ) (index : ℕ) (serialized : List String) (rows : List (RetrievedChunk F))
      → Filling token_budget index serialized rows (fill encode token_budget index serialized rows)
  unfolding fill records
  fill_lem token_budget index serialized [] = record {
    count = 0;
    items_eq = refl;
    serialized_eq = sym (append-nil serialized);
    truncated_eq = refl;
    fits = inl refl;
    maximal = inl refl;
  }
  fill_lem token_budget index serialized (row ∷ rows) =
      let text = serialize row (citation_id_at index) in
      elim (Bool-cases (exceeds encode token_budget serialized text)) [
        | inl e ↦ rw e (record {
          count = 0;
          items_eq = refl;
          serialized_eq = sym (append-nil serialized);
          truncated_eq =
              ap (λ (ids : List String). row.hit.chunk_id ∷ ids)
                (sym (records-ids (suc index) rows));
          fits = inl refl;
          maximal = inr (
              ltb_ℤ-lt token_budget
                (tokens serialized (new_item encode row (citation_id_at index) text ∷ [])) e);
        })
        | inr e ↦
            let rest = fill_lem token_budget (suc index) (serialized ++ text ∷ []) rows in
            rw e (Filling-after token_budget index serialized row rows _ e rest)
      ]
