-- ===== src/Rag/Service.antt =====
-- src/ragbench/rag/service.py. The retriever, the evidence source and the metered gateway are what
-- the service is built with; each is a call that returns or raises. The clock is `latency_ms`.
pub mod Resolving
pub mod Grounding
use ragbench_kr_implementati.Prelude.{
  ℕ, ◌+◌, Bool, true, false, not, ◌&&◌, ◌||◌, Option, none, some, String, List, [], ◌∷◌, map,
  length, str_eq,
}
use ragbench_kr_implementati.Prelude.Int.{ℤ, pos, negsuc, leb_ℤ, ltb_ℤ, eqb_ℤ}
use ragbench_kr_implementati.Prelude.Float.{Float}
use ragbench_kr_implementati.Prelude.Text.{is_blank}
use ragbench_kr_implementati.Prelude.Result.{Result, ok, err, raise_if, value_error, ◌>>=◌, ◌>>◌}
use ragbench_kr_implementati.Prelude.Assoc.{str_key, contains, distinct, lookup, put, same_keys}
use ragbench_kr_implementati.Retrieval.{SearchFilter, SearchHit, RetrievalEvidence}
use ragbench_kr_implementati.Rag.{
  RetrievedChunk, ContextItem, ContextBundle, GeneratedAnswer, ResolvedCitation,
}
use ragbench_kr_implementati.Rag.Context.{build}
use ragbench_kr_implementati.Rag.Citations.{validate_answer_policy, resolve_citations}
use ragbench_kr_implementati.Rag.Parsing.{parse_generated_answer}
use ragbench_kr_implementati.Rag.Prompts.{PromptVersion, version_value, render_prompt}

-- JSON values as Python reads them; a float keeps its numeral.
mutual
  pub data Json : Type 0 where
    null : Json
    boolean : Bool → Json
    integer : ℤ → Json
    floating text : String → Json
    array : Values → Json
    object : Fields → Json

  pub data Values : Type 0 where
    no_values : Values
    value : Json → Values → Values

  pub data Fields : Type 0 where
    no_fields : Fields
    field : String → Json → Fields → Fields

-- `get(key)`
unfoldable pub get : String → Fields → Option Json
get key no_fields = none
get key (field name item fields) = elim (str_eq name key) [
  | true ↦ some item
  | false ↦ get key fields
]

pub record RagConfig : Type 0 where
  pub search_filter : SearchFilter
  pub model_id : String
  pub prompt_version : PromptVersion
  pub top_k : ℤ
  pub context_token_budget : ℤ
  pub max_output_tokens : ℤ
  pub experiment_id : String
  pub config_id : String
  pub provider_params : Fields

-- `RagConfig.__post_init__`. The freezing of the parameters keeps their value.
unfoldable pub new_config : RagConfig → Result RagConfig
unfolding is_blank
new_config config = do
  raise_if (is_blank config.model_id || is_blank config.experiment_id || is_blank config.config_id)
      (value_error "model, experiment, and config identities cannot be blank")
  raise_if (leb_ℤ config.top_k (pos 0)) (value_error "top_k must be a positive integer")
  raise_if (ltb_ℤ config.context_token_budget (pos 0))
      (value_error "context_token_budget must be a nonnegative integer")
  raise_if (leb_ℤ config.max_output_tokens (pos 0))
      (value_error "max_output_tokens must be a positive integer")
  ok config

pub record GenerateRequest : Type 0 where
  pub model_id : String
  pub prompt : String
  pub provider_params : Fields
  pub input_tokens : ℕ
  pub max_output_tokens : ℤ

pub record GenerateResponse : Type 0 where
  pub content : String
  pub raw_response : Fields
  pub correlation_id : Option String
  pub cache_hit : Option Bool

pub record GenerationUsage : Type 0 where
  pub input_tokens : Option ℤ
  pub output_tokens : Option ℤ

pub record RagAnswer (F : Type 0) : Type 0 where
  pub question : String
  pub answer : String
  pub abstained : Bool
  pub evidence : List (ContextItem F)
  pub citations : List ResolvedCitation
  pub latency_ms : ℕ
  pub usage : GenerationUsage
  pub experiment_id : String
  pub config_id : String
  pub model_id : String
  pub prompt_version : PromptVersion
  pub cached : Option Bool
  pub correlation_id : Option String
  pub provider_response_id : Option String

-- `PROVIDER_CHAT_FRAMING_TOKEN_MARGIN`
abbrev pub framing_token_margin : ℕ
framing_token_margin = 16

abbrev pub nonnegative_int : Option Json → Option ℤ
nonnegative_int (some (integer (pos n))) = some (pos n)
nonnegative_int (some (integer (negsuc n))) = none
nonnegative_int (some null) = none
nonnegative_int (some (boolean b)) = none
nonnegative_int (some (floating s)) = none
nonnegative_int (some (text s)) = none
nonnegative_int (some (array vs)) = none
nonnegative_int (some (object fs)) = none
nonnegative_int none = none

abbrev pub usage_of : Option Json → GenerationUsage
unfolding get
usage_of (some (object raw)) = record {
  input_tokens = nonnegative_int (get "prompt_tokens" raw);
  output_tokens = nonnegative_int (get "completion_tokens" raw);
}
usage_of _ = record { input_tokens = none; output_tokens = none }

abbrev pub text_of : Option Json → Option String
text_of (some (text s)) = some s
text_of _ = none

-- `==` of two optional values.
abbrev pub option_eq {ℓ} : {A : Type ℓ} → (A → A → Bool) → Option A → Option A → Bool
option_eq eq none none = true
option_eq eq none (some b) = false
option_eq eq (some a) none = false
option_eq eq (some a) (some b) = eq a b

module _ (float : Float) where
  open float use {F, order}

  abbrev pub float_eq : F → F → Bool
  float_eq a b = order.le a b && order.le b a

  abbrev pub evidence_eq : RetrievalEvidence F → RetrievalEvidence F → Bool
  evidence_eq a b =
      option_eq eqb_ℤ a.dense_rank b.dense_rank
      && option_eq eqb_ℤ a.sparse_rank b.sparse_rank
      && option_eq float_eq a.dense_score b.dense_score
      && option_eq float_eq a.sparse_score b.sparse_score
      && float_eq a.fused_score b.fused_score

  -- The `__eq__` of the `SearchHit` dataclass.
  unfoldable pub hit_eq : SearchHit F → SearchHit F → Bool
  hit_eq a b =
      str_eq a.chunk_id b.chunk_id
      && float_eq a.score b.score
      && eqb_ℤ a.rank b.rank
      && str_eq a.retriever b.retriever
      && option_eq evidence_eq a.evidence b.evidence

  -- The loop over the hits.
  unfoldable pub index_hits :
      List (String × SearchHit F) → List (SearchHit F) → Result (List (String × SearchHit F))
  unfolding contains put
  index_hits by_id [] = ok by_id
  index_hits by_id (hit ∷ hits) = do
    raise_if (contains hit.chunk_id (map (λ entry. entry.0) by_id))
        (value_error "retriever returned duplicate chunk IDs")
    index_hits (put hit.chunk_id hit by_id) hits

  unfoldable pub check_canonical : SearchHit F → Option (SearchHit F) → Result (Unit {0})
  unfolding hit_eq
  check_canonical hit none =
      err (value_error "evidence source returned a chunk not requested from retrieval")
  check_canonical hit (some canonical) = do
    raise_if (not (hit_eq hit canonical))
        (value_error "evidence source changed canonical retrieval evidence")
    ok tt

  -- The loop over the chunks; it returns the set of the resolved ids.
  unfoldable pub check_chunks :
      List (String × SearchHit F) → List String → List (RetrievedChunk F) → Result (List String)
  unfolding contains check_canonical lookup
  check_chunks by_id resolved [] = ok resolved
  check_chunks by_id resolved (chunk ∷ chunks) = do
    raise_if (contains chunk.hit.chunk_id resolved)
        (value_error "evidence source returned duplicate chunk IDs")
    check_canonical chunk.hit (lookup chunk.hit.chunk_id by_id)
    check_chunks by_id (chunk.hit.chunk_id ∷ resolved) chunks

  unfoldable pub validate_resolved_chunks :
      List (SearchHit F) → List (RetrievedChunk F) → Result (Unit {0})
  unfolding index_hits check_chunks same_keys
  validate_resolved_chunks hits chunks = do
    by_id ← index_hits [] hits
    resolved ← check_chunks by_id [] chunks
    raise_if (not (same_keys resolved (map (λ entry. entry.0) by_id)))
        (value_error "resolved evidence IDs must exactly match retrieval hit IDs")
    ok tt

-- What the service is built with, and what it imports.
pub record RagService (float : Float) : Type 1 where
  pub search : String → ℤ → SearchFilter → Result (List (SearchHit float.F))
  pub resolve : List (SearchHit float.F) → SearchFilter → Result (List (RetrievedChunk float.F))
  pub generate : GenerateRequest → Result GenerateResponse
  pub encode : String → List ℕ
  pub template : PromptVersion → String
  pub validate_json : String → Option GeneratedAnswer

-- `RagService.answer`.
unfoldable pub answer :
    (float : Float) → RagService float → ℕ → String → RagConfig → Result (RagAnswer float.F)
unfolding is_blank validate_resolved_chunks build render_prompt parse_generated_answer
    validate_answer_policy resolve_citations get
answer float service latency_ms question config = do
  raise_if (is_blank question) (value_error "question cannot be blank")
  hits ← service.search question config.top_k config.search_filter
  chunks ← service.resolve hits config.search_filter
  validate_resolved_chunks float hits chunks
  context ← build float service.encode chunks config.context_token_budget
  prompt ← render_prompt service.template config.prompt_version question context.text
  response ← service.generate (record {
    model_id = config.model_id;
    prompt = prompt;
    provider_params = config.provider_params;
    input_tokens = length (service.encode prompt) + framing_token_margin;
    max_output_tokens = config.max_output_tokens;
  })
  generated ← parse_generated_answer service.validate_json response.content
  validate_answer_policy generated (version_value config.prompt_version)
  citations ← resolve_citations generated.citations context
  ok (record {
    question = question;
    answer = generated.answer;
    abstained = generated.abstained;
    evidence = context.items;
    citations = citations;
    latency_ms = latency_ms;
    usage = usage_of (get "usage" response.raw_response);
    experiment_id = config.experiment_id;
    config_id = config.config_id;
    model_id = config.model_id;
    prompt_version = config.prompt_version;
    cached = response.cache_hit;
    correlation_id = response.correlation_id;
    provider_response_id = text_of (get "id" response.raw_response);
  })
