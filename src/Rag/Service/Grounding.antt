-- ===== src/Rag/Service/Grounding.antt =====
-- An answer rests on retrieved evidence only.
use mathlib.Core.Path.{subst}
use mathlib.Core.List.{Mem}
use ragbench_kr_implementati.Prelude.{
  ℕ, suc, ◌≡◌, ◌⊎◌, refl, sym, ◌∙◌, Bool, true, false, String, List, [], ◌∷◌, map, All, All-take,
  inl, inr,
}
use ragbench_kr_implementati.Prelude.Int.{ℤ}
use ragbench_kr_implementati.Prelude.Float.{Float}
use ragbench_kr_implementati.Prelude.Text.{is_blank}
use ragbench_kr_implementati.Prelude.Result.{ok, raise_if-eq-ok, >>=-eq-ok, ok-injective}
use ragbench_kr_implementati.Prelude.Assoc.{str_key, contains}
use ragbench_kr_implementati.Prelude.Lookup.{All-contains}
use ragbench_kr_implementati.Retrieval.{SearchHit}
use ragbench_kr_implementati.Rag.{RetrievedChunk, ContextItem, ContextBundle}
use ragbench_kr_implementati.Rag.Context.{chunk_id_of, build}
use ragbench_kr_implementati.Rag.Context.Filling.{records}
use ragbench_kr_implementati.Rag.Context.Bundle.{build_lem}
use ragbench_kr_implementati.Rag.Citations.{is_empty, validate_answer_policy, resolve_citations}
use ragbench_kr_implementati.Rag.Citations.Resolution.{IsBacked, resolve_citations_sound}
use ragbench_kr_implementati.Rag.Parsing.{parse_generated_answer}
use ragbench_kr_implementati.Rag.Prompts.{PromptVersion, v1, v2, v3, version_value, render_prompt}
use ragbench_kr_implementati.Rag.Service.{
  RagConfig, RagAnswer, RagService, validate_resolved_chunks, answer,
}
use ragbench_kr_implementati.Rag.Service.Resolving.{validate_resolved_chunks_lem}

-- Who abstains cites nothing; who answers by a context-only prompt cites something.
abbrev pub IsPolicy : PromptVersion → Bool → List String → Type 0
IsPolicy version abstained citations =
    ((abstained ≡ false) ⊎ (citations ≡ []))
    × ((version ≡ v1) ⊎ ((abstained ≡ true) ⊎ (is_empty citations ≡ false)))

policy :
    (version : PromptVersion) (text : String) (abstained : Bool) (citations : List String)
    → validate_answer_policy
        (record { answer = text; citations = citations; abstained = abstained })
        (version_value version)
      ≡ ok tt
    → IsPolicy version abstained citations
unfolding validate_answer_policy
policy v1 text true [] e = (inr refl, inl refl)
policy v1 text true (c ∷ cs) e = absurd (cc)
policy v1 text false citations e = (inl refl, inl refl)
policy v2 text true [] e = (inr refl, inr (inl refl))
policy v2 text true (c ∷ cs) e = absurd (cc)
policy v2 text false [] e = absurd (cc)
policy v2 text false (c ∷ cs) e = (inl refl, inr (inr refl))
policy v3 text true [] e = (inr refl, inr (inl refl))
policy v3 text true (c ∷ cs) e = absurd (cc)
policy v3 text false [] e = absurd (cc)
policy v3 text false (c ∷ cs) e = (inl refl, inr (inr refl))

module _ {F : Type 0} (encode : String → List ℕ) where
  records_in :
      (index : ℕ) (rows : List (RetrievedChunk F)) (ids : List String)
      → All (λ id. contains id ids ≡ true) (map chunk_id_of rows)
      → All (λ item. contains item.chunk_id ids ≡ true) (records encode index rows)
  unfolding records
  records_in index [] ids h = tt
  records_in index (row ∷ rows) ids h = (h.0, records_in (suc index) rows ids h.1)

-- The evidence of a bundle has ids of the chunks that it is built from.
build-ids :
    (float : Float) (encode : String → List ℕ) (chunks : List (RetrievedChunk float.F)) (budget : ℤ)
    (context : ContextBundle float.F) (ids : List String)
    → encode "" ≡ []
    → build float encode chunks budget ≡ ok context
    → ((id : String) → contains id (map chunk_id_of chunks) ≡ contains id ids)
    → All (λ item. contains item.chunk_id ids ≡ true) context.items
build-ids float encode chunks budget context ids no_tokens built same =
    let (rows, selection, count, is_prefix) =
      build_lem float encode chunks budget context no_tokens built in
    let known = λ (item : ContextItem float.F). contains item.chunk_id ids ≡ true in
    subst (All known) (sym is_prefix.0) (
      All-take known count (records encode 1 rows) (
        records_in encode 1 rows ids (
          All-contains (map chunk_id_of rows) ids
            (λ id h. sym (same id) ∙ sym (selection.2 id) ∙ h))))

module _ (float : Float) (service : RagService float) where
  open float use {F}

  -- What an answer rests on, with the hits of its question.
  abbrev pub IsGrounded : List (SearchHit F) → PromptVersion → RagAnswer F → Type 0
  IsGrounded hits version result =
      All (IsBacked (λ item. Mem item result.evidence)) result.citations
      × All (λ item. contains item.chunk_id (map (λ hit. hit.chunk_id) hits) ≡ true) result.evidence
      × IsPolicy version result.abstained (map (λ citation. citation.citation_id) result.citations)

  -- When the service answers, every citation is that of an item of the answer's evidence, and every
  -- item of the evidence has the chunk id of a hit that the retriever returned for the question; an
  -- answer that abstains cites nothing; and under the prompts v2 and v3 an answer that does not
  -- abstain cites something. It is assumed that the empty text has no tokens.
  pub answer-IsGrounded :
      (latency_ms : ℕ) (question : String) (config : RagConfig) (result : RagAnswer F)
      → service.encode "" ≡ []
      → answer float service latency_ms question config ≡ ok result
      → (hits : List (SearchHit F)) × (service.search question config.top_k config.search_filter
          ≡ ok hits)
        × IsGrounded hits config.prompt_version result
  unfolding answer
  answer-IsGrounded latency_ms question config result no_tokens returned =
      let (_, e₁) = raise_if-eq-ok (is_blank question) _ _ returned in
      let (hits, searched, e₂) =
        >>=-eq-ok (service.search question config.top_k config.search_filter) _ e₁ in
      let (chunks, resolving, e₃) = >>=-eq-ok (service.resolve hits config.search_filter) _ e₂ in
      let (_, checked, e₄) = >>=-eq-ok (validate_resolved_chunks float hits chunks) _ e₃ in
      let (context, built, e₅) =
        >>=-eq-ok (build float service.encode chunks config.context_token_budget) _ e₄ in
      let (prompt, rendered, e₆) =
        >>=-eq-ok (render_prompt service.template config.prompt_version question context.text) _
          e₅ in
      let (response, generating, e₇) = >>=-eq-ok (service.generate _) _ e₆ in
      let (generated, parsing, e₈) =
        >>=-eq-ok (parse_generated_answer service.validate_json response.content) _ e₇ in
      let (_, allowed, e₉) =
        >>=-eq-ok (validate_answer_policy generated (version_value config.prompt_version)) _ e₈ in
      let (citations, resolution, last) =
        >>=-eq-ok (resolve_citations generated.citations context) _ e₉ in
      let (_, same_ids) = validate_resolved_chunks_lem float hits chunks checked in
      let (_, cited, backed) =
        resolve_citations_sound generated.citations context citations resolution in
      (
        hits,
        searched,
        subst (IsGrounded hits config.prompt_version) (ok-injective last) (
          backed,
          build-ids float service.encode chunks config.context_token_budget context
              (map (λ (hit : SearchHit F). hit.chunk_id) hits) no_tokens built same_ids,
          subst (IsPolicy config.prompt_version generated.abstained) (sym cited) (
              policy config.prompt_version generated.answer generated.abstained generated.citations
                allowed),
        ),
      )
