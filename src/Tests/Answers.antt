-- ===== src/Tests/Answers.antt =====
-- src/ragbench/rag/. A context of two records, one of them retrieved twice, and an answer that cites
-- it; the tokens of the examples are characters.
use Prim.Native.Char.{code}
use mathlib.Core.List.{Mem}
use ragbench_kr_implementati.Prelude.{
  ℕ, ◌*◌, ◌≡◌, refl, true, false, none, some, String, List, [], ◌∷◌, map, All, length,
}
use ragbench_kr_implementati.Prelude.Int.{pos}
use ragbench_kr_implementati.Prelude.Float.{fixed_point}
use ragbench_kr_implementati.Prelude.Text.{str_leb, count_char}
use ragbench_kr_implementati.Prelude.Result.{Result, ok, err, citation_validation}
use ragbench_kr_implementati.Prelude.Assoc.{str_key, contains, distinct}
use ragbench_kr_implementati.Retrieval.{SearchHit}
use ragbench_kr_implementati.Rag.{RetrievedChunk, ContextBundle, ResolvedCitation}
use ragbench_kr_implementati.Rag.Context.{build}
use ragbench_kr_implementati.Rag.Context.Filling.{records}
use ragbench_kr_implementati.Rag.Context.Bundle.{IsSelection, IsPrefixOf, build_lem, build_markup}
use ragbench_kr_implementati.Rag.Citations.{resolve_citations}
use ragbench_kr_implementati.Rag.Citations.Resolution.{
  IsBacked, resolve_citations_sound, resolve_citations_returns,
}
use ragbench_kr_implementati.Rag.Parsing.{remove_single_json_fence}
use ragbench_kr_implementati.Rag.Prompts.{v2}
use ragbench_kr_implementati.Rag.Service.{RagConfig, RagAnswer, RagService, no_fields, answer}
use ragbench_kr_implementati.Rag.Service.Grounding.{IsGrounded, answer-IsGrounded}

abbrev or_default {ℓ} : {A : Type ℓ} → A → Result A → A
or_default a (ok b) = b
or_default a (err e) = a

characters : String → List ℕ
characters String.[] = []
characters (String.◌∷◌ c s) = code c ∷ characters s

no_characters : characters "" ≡ []
unfolding characters
no_characters = refl

abbrev hit_of : String → ℕ → SearchHit ℕ
hit_of chunk_id rank = record {
  chunk_id = chunk_id;
  score = 1;
  rank = pos rank;
  retriever = "rrf";
  evidence = none;
}

abbrev chunk : String → ℕ → RetrievedChunk ℕ
chunk chunk_id rank = record {
  hit = hit_of chunk_id rank;
  document_id = "d";
  document_title = "<T>";
  page_start = pos 1;
  page_end = pos 2;
  section_path = "s" ∷ [];
  content = "x & y";
}

abbrev chunks : List (RetrievedChunk ℕ)
chunks = chunk "b" 2 ∷ chunk "a" 1 ∷ chunk "b" 3 ∷ []

abbrev no_bundle : ContextBundle ℕ
no_bundle = record {
  items = [];
  text = "";
  token_count = 0;
  token_budget = pos 0;
  duplicate_chunk_ids = [];
  truncated_chunk_ids = [];
}

-- Room for one of the two records.
abbrev bundle : ContextBundle ℕ
unfolding build characters str_leb
bundle = or_default no_bundle (build fixed_point characters chunks (pos 300))

built : build fixed_point characters chunks (pos 300) ≡ ok bundle
unfolding build characters str_leb
built = refl

one_of_two :
    (map (λ item. item.citation_id) bundle.items ≡ "C1" ∷ [])
    × (map (λ item. item.chunk_id) bundle.items ≡ "a" ∷ [])
    × (bundle.duplicate_chunk_ids ≡ "b" ∷ [])
    × (bundle.truncated_chunk_ids ≡ "b" ∷ [])
unfolding bundle
one_of_two = (refl, refl, refl, refl)

build_lem_example :
    (rows : List (RetrievedChunk ℕ)) × IsSelection fixed_point characters chunks rows
    × (count : ℕ) × IsPrefixOf fixed_point characters (records characters 1 rows) count bundle
build_lem_example = build_lem fixed_point characters chunks (pos 300) bundle no_characters built

build_markup_example :
    (count_char 60 bundle.text ≡ 2 * length bundle.items)
    × (count_char 62 bundle.text ≡ 2 * length bundle.items)
build_markup_example =
    build_markup fixed_point characters chunks (pos 300) bundle no_characters built

abbrev cited : List ResolvedCitation
unfolding resolve_citations bundle
cited = or_default [] (resolve_citations ("C1" ∷ []) bundle)

resolves : resolve_citations ("C1" ∷ []) bundle ≡ ok cited
unfolding resolve_citations bundle
resolves = refl

unknown :
    resolve_citations ("C2" ∷ []) bundle
    ≡ err (citation_validation "citation is not in included context")
unfolding resolve_citations bundle
unknown = refl

resolve_citations_sound_example :
    (distinct {K = String} ("C1" ∷ []) ≡ true)
    × (map (λ citation. citation.citation_id) cited ≡ "C1" ∷ [])
    × All (IsBacked (λ item. Mem item bundle.items)) cited
resolve_citations_sound_example = resolve_citations_sound ("C1" ∷ []) bundle cited resolves

once : distinct {K = String} ("C1" ∷ []) ≡ true
unfolding distinct
once = refl

included : contains "C1" (map (λ item. item.citation_id) bundle.items) ≡ true
unfolding contains bundle
included = refl

resolve_citations_returns_example :
    (out : List ResolvedCitation) × (resolve_citations ("C1" ∷ []) bundle ≡ ok out)
resolve_citations_returns_example = resolve_citations_returns ("C1" ∷ []) bundle once (included, tt)

abbrev service : RagService fixed_point
service = record {
  search = λ question top_k filter. ok (hit_of "a" 1 ∷ []);
  resolve = λ hits filter. ok (chunk "a" 1 ∷ []);
  generate = λ request. ok (record {
    content = "yes [C1]";
    raw_response = no_fields;
    correlation_id = none;
    cache_hit = some false;
  });
  encode = characters;
  template = λ version. "{{QUESTION_JSON}} {{CONTEXT}}";
  validate_json = λ raw. some (record { answer = raw; citations = "C1" ∷ []; abstained = false });
}

abbrev config : RagConfig
config = record {
  search_filter = record {
    corpus_snapshot_id = "c";
    parse_snapshot_id = "p";
    chunk_strategy = "fixed";
    embedding_snapshot_id = "e";
    document_ids = [];
  };
  model_id = "m";
  prompt_version = v2;
  top_k = pos 3;
  context_token_budget = pos 400;
  max_output_tokens = pos 10;
  experiment_id = "x";
  config_id = "g";
  provider_params = no_fields;
}

abbrev no_answer : RagAnswer ℕ
no_answer = record {
  question = "";
  answer = "";
  abstained = true;
  evidence = [];
  citations = [];
  latency_ms = 0;
  usage = record { input_tokens = none; output_tokens = none };
  experiment_id = "";
  config_id = "";
  model_id = "";
  prompt_version = v2;
  cached = none;
  correlation_id = none;
  provider_response_id = none;
}

abbrev answered : RagAnswer ℕ
unfolding answer characters str_leb
answered = or_default no_answer (answer fixed_point service 12 "why?" config)

answers : answer fixed_point service 12 "why?" config ≡ ok answered
unfolding answer characters str_leb
answers = refl

cites_c1 : map (λ citation. citation.citation_id) answered.citations ≡ "C1" ∷ []
unfolding answered
cites_c1 = refl

answer-IsGrounded_example :
    (hits : List (SearchHit ℕ)) × (service.search "why?" (pos 3) config.search_filter ≡ ok hits)
    × IsGrounded fixed_point service hits v2 answered
answer-IsGrounded_example =
    answer-IsGrounded fixed_point service 12 "why?" config answered no_characters answers

fenced :
    remove_single_json_fence " ```json  \n\n {\"a\": 1}\n ```\n```\n" ≡ some " {\"a\": 1}\n ```"
unfolding remove_single_json_fence
fenced = refl

no_body : remove_single_json_fence "```\n```" ≡ none
unfolding remove_single_json_fence
no_body = refl
