-- ===== src/Rag/Citations.antt =====
-- src/ragbench/rag/citations.py. `parse_generated_answer` stands on pydantic, a parameter where it is used.
pub mod Resolution
use ragbench_kr_implementati.Prelude.{
  Bool, true, false, not, ◌&&◌, ◌||◌, Option, none, some, String, List, [], ◌∷◌, str_eq,
}
use ragbench_kr_implementati.Prelude.Result.{
  Result, ok, err, raise_if, value_error, citation_validation, ◌>>=◌, ◌>>◌,
}
use ragbench_kr_implementati.Prelude.Assoc.{str_key, distinct, lookup, put}
use ragbench_kr_implementati.Rag.{ContextItem, ContextBundle, GeneratedAnswer, ResolvedCitation}

-- A sequence's truth value.
abbrev pub is_empty {ℓ} : {A : Type ℓ} → List A → Bool
is_empty [] = true
is_empty (x ∷ xs) = false

unfoldable pub validate_answer_policy : GeneratedAnswer → String → Result (Unit {0})
validate_answer_policy answer prompt_version = do
  raise_if
      (not (str_eq prompt_version "v1" || str_eq prompt_version "v2" || str_eq prompt_version "v3"))
      (value_error "unknown prompt version")
  raise_if (answer.abstained && not (is_empty answer.citations))
      (citation_validation "an abstained answer cannot include citations")
  raise_if
      ((str_eq prompt_version "v2" || str_eq prompt_version "v3")
        && not answer.abstained
        && is_empty answer.citations)
      (citation_validation "a non-abstained context-only answer requires at least one citation")
  ok tt

module _ {F : Type 0} where
  -- `{item.citation_id: item for item in context.items}`; a later item replaces an earlier one.
  unfoldable pub allow :
      List (String × ContextItem F) → List (ContextItem F) → List (String × ContextItem F)
  unfolding put
  allow allowed [] = allowed
  allow allowed (item ∷ items) = allow (put item.citation_id item allowed) items

  abbrev pub resolved : ContextItem F → ResolvedCitation
  resolved item = record {
    citation_id = item.citation_id;
    chunk_id = item.chunk_id;
    document_id = item.document_id;
    document_title = item.document_title;
    page_start = item.page_start;
    page_end = item.page_end;
    section_path = item.section_path;
  }

  abbrev pub resolve_item : Option (ContextItem F) → Result ResolvedCitation
  resolve_item none = err (citation_validation "citation is not in included context")
  resolve_item (some item) = ok (resolved item)

  unfoldable pub resolve_each :
      List (String × ContextItem F) → List String → Result (List ResolvedCitation)
  unfolding lookup
  resolve_each allowed [] = ok []
  resolve_each allowed (id ∷ ids) = do
    citation ← resolve_item (lookup id allowed)
    output ← resolve_each allowed ids
    ok (citation ∷ output)

  unfoldable pub resolve_citations : List String → ContextBundle F → Result (List ResolvedCitation)
  unfolding allow resolve_each distinct
  resolve_citations citation_ids context = do
    raise_if (not (distinct citation_ids))
        (citation_validation "duplicate citation IDs are not allowed")
    resolve_each (allow [] context.items) citation_ids
