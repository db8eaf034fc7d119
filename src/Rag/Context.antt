-- ===== src/Rag/Context.antt =====
-- src/ragbench/rag/context.py, `RetrievedChunk` and `ContextBuilder`. `encode` is the vendored
-- tokenizer's, whose data no file here holds: a parameter.
pub mod Dedupe
pub mod Filling
pub mod Bundle
use Prim.Native.String.{◌++◌}
use ragbench_kr_implementati.Prelude.{
  ℕ, suc, Bool, true, false, not, ◌&&◌, ◌||◌, Option, none, some, String, List, [], ◌∷◌,
  ◌++◌ as append, map, length, any, ltb, if◌then◌else◌, str_eq,
}
use ragbench_kr_implementati.Prelude.Int.{ℤ, pos, leb_ℤ, ltb_ℤ, eqb_ℤ}
use ragbench_kr_implementati.Prelude.Float.{Float}
use ragbench_kr_implementati.Prelude.Text.{is_blank, join}
use ragbench_kr_implementati.Prelude.Decimal.{show}
use ragbench_kr_implementati.Prelude.Result.{Result, ok, raise_if, value_error, ◌>>=◌, ◌>>◌}
use ragbench_kr_implementati.Prelude.Sorting.{
  Preorder, by_key, descending, ◌then_by◌, ascending_int, ascending_str, ascending_tuple, lex_leb,
  sorted,
}
use ragbench_kr_implementati.Prelude.Assoc.{str_key, lookup, put, to_set}
use ragbench_kr_implementati.Retrieval.{SearchHit}
use ragbench_kr_implementati.Rag.{RetrievedChunk, ContextItem, ContextBundle}
use ragbench_kr_implementati.Rag.Serialize.{serialize}

-- Equality of two tuples of strings.
unfoldable pub strs_eq : List String → List String → Bool
strs_eq [] [] = true
strs_eq [] (t ∷ ts) = false
strs_eq (s ∷ ss) [] = false
strs_eq (s ∷ ss) (t ∷ ts) = str_eq s t && strs_eq ss ts

-- `_source_identity(prior) == _source_identity(row)`.
unfoldable pub same_source : {F : Type 0} → RetrievedChunk F → RetrievedChunk F → Bool
unfolding strs_eq
same_source prior row =
    str_eq prior.document_id row.document_id
    && str_eq prior.document_title row.document_title
    && eqb_ℤ prior.page_start row.page_start
    && eqb_ℤ prior.page_end row.page_end
    && strs_eq prior.section_path row.section_path
    && str_eq prior.content row.content

abbrev pub chunk_id_of : {F : Type 0} → RetrievedChunk F → String
chunk_id_of row = row.hit.chunk_id

-- The local variables of the loop over the ordered rows.
pub record Deduped (F : Type 0) : Type 0 where
  pub unique : List (RetrievedChunk F)
  pub seen : List (String × RetrievedChunk F)
  pub duplicates : List String

abbrev pub nothing_seen : {F : Type 0} → Deduped F
nothing_seen = record { unique = []; seen = []; duplicates = [] }

abbrev pub dropped : {F : Type 0} → Deduped F → RetrievedChunk F → Deduped F
dropped state row = record {
  unique = state.unique;
  seen = state.seen;
  duplicates = append state.duplicates (row.hit.chunk_id ∷ []);
}

unfoldable pub kept : {F : Type 0} → Deduped F → RetrievedChunk F → Deduped F
unfolding put
kept state row = record {
  unique = append state.unique (row ∷ []);
  seen = put row.hit.chunk_id row state.seen;
  duplicates = state.duplicates;
}

-- One round, by `seen.get(row.hit.chunk_id)`.
unfoldable pub dedupe_row :
    {F : Type 0} → Deduped F → RetrievedChunk F → Option (RetrievedChunk F) → Result (Deduped F)
unfolding kept same_source
dedupe_row state row (some prior) = do
  raise_if (not (same_source prior row)) (value_error "conflicting duplicate chunk provenance")
  ok (dropped state row)
dedupe_row state row none = ok (kept state row)

unfoldable pub dedupe : {F : Type 0} → Deduped F → List (RetrievedChunk F) → Result (Deduped F)
unfolding lookup dedupe_row
dedupe state [] = ok state
dedupe state (row ∷ rows) = do
  next ← dedupe_row state row (lookup row.hit.chunk_id state.seen)
  dedupe next rows

-- What the loop over the unique rows leaves.
pub record Filled (F : Type 0) : Type 0 where
  pub included : List (ContextItem F)
  pub serialized : List String
  pub truncated : List String

module _ (float : Float) where
  open float use {F, is_finite, order}

  -- `RetrievedChunk(...)`, with its `__post_init__`.
  unfoldable pub new_chunk :
      SearchHit F → String → String → ℤ → ℤ → List String → String → Result (RetrievedChunk F)
  unfolding is_blank
  new_chunk hit document_id document_title page_start page_end section_path content = do
    raise_if (is_blank hit.chunk_id || is_blank document_id || is_blank document_title)
        (value_error "retrieved chunk provenance identity cannot be blank")
    raise_if (leb_ℤ hit.rank (pos 0) || not (is_finite hit.score))
        (value_error "retrieved chunk provenance rank and score must be valid")
    raise_if (leb_ℤ page_start (pos 0) || ltb_ℤ page_end page_start)
        (value_error "retrieved chunk provenance page range is invalid")
    raise_if (is_blank content) (value_error "retrieved chunk provenance content cannot be blank")
    raise_if (any is_blank section_path)
        (value_error "retrieved chunk provenance section cannot be blank")
    ok (record {
      hit = hit;
      document_id = document_id;
      document_title = document_title;
      page_start = page_start;
      page_end = page_end;
      section_path = section_path;
      content = content;
    })

  -- The key tuple that the rows are sorted by.
  abbrev pub chunk_order : Preorder (RetrievedChunk F)
  chunk_order =
      by_key (λ row. row.hit.rank) ascending_int
      then_by by_key (λ row. row.hit.score) (descending order)
      then_by by_key (λ row. row.hit.chunk_id) ascending_str
      then_by by_key (λ row. row.document_id) ascending_str
      then_by by_key (λ row. row.page_start) ascending_int
      then_by by_key (λ row. row.page_end) ascending_int
      then_by by_key (λ row. row.section_path) (ascending_tuple ascending_str)
      then_by by_key (λ row. row.content) ascending_str

unfoldable pub citation_id_at : ℕ → String
unfolding show
citation_id_at index = "C" ++ show index

abbrev pub new_item :
    {F : Type 0} → (String → List ℕ) → RetrievedChunk F → String → String → ContextItem F
new_item encode row citation_id item_text = record {
  citation_id = citation_id;
  chunk_id = row.hit.chunk_id;
  document_id = row.document_id;
  document_title = row.document_title;
  page_start = row.page_start;
  page_end = row.page_end;
  section_path = row.section_path;
  content = row.content;
  retrieval_rank = row.hit.rank;
  retrieval_score = row.hit.score;
  retriever = row.hit.retriever;
  serialized = item_text;
  token_count = length (encode item_text);
}

module _ (encode : String → List ℕ) (token_budget : ℤ) where
  -- `candidate_tokens > token_budget`, for the next record after the `serialized` ones.
  abbrev pub exceeds : List String → String → Bool
  exceeds serialized item_text =
      ltb_ℤ token_budget (pos (length (encode (join "\n" (append serialized (item_text ∷ []))))))

  -- The loop over the unique rows that are left, from `index` on, with the texts so far.
  unfoldable pub fill : {F : Type 0} → ℕ → List String → List (RetrievedChunk F) → Filled F
  unfolding citation_id_at serialize join
  fill index serialized [] = record { included = []; serialized = serialized; truncated = [] }
  fill index serialized (row ∷ rows) =
      let citation_id = citation_id_at index in
      let item_text = serialize row citation_id in
      let rest = fill (suc index) (append serialized (item_text ∷ [])) rows in
      if exceeds serialized item_text
      then record {
        included = [];
        serialized = serialized;
        truncated = map chunk_id_of (row ∷ rows);
      }
      else record {
        included = new_item encode row citation_id item_text ∷ rest.included;
        serialized = rest.serialized;
        truncated = rest.truncated;
      }

-- `ContextBuilder.build`.
unfoldable pub build :
    (float : Float)
    → (String → List ℕ)
    → List (RetrievedChunk float.F)
    → ℤ
    → Result (ContextBundle float.F)
unfolding sorted lex_leb dedupe fill join to_set
build float encode hits token_budget = do
  raise_if (ltb_ℤ token_budget (pos 0)) (value_error "token_budget must be a nonnegative integer")
  deduped ← dedupe nothing_seen (sorted (chunk_order float) hits)
  let filled = fill encode token_budget 1 [] deduped.unique
  let text = join "\n" filled.serialized
  ok (record {
    items = filled.included;
    text = text;
    token_count = length (encode text);
    token_budget = token_budget;
    duplicate_chunk_ids = sorted ascending_str (to_set deduped.duplicates);
    truncated_chunk_ids = filled.truncated;
  })
