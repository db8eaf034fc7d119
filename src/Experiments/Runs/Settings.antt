-- ===== src/Experiments/Runs/Settings.antt =====
-- src/ragbench/experiments/runner.py, the checks that make a configuration valid.
use Prim.Native.Char.{code}
use ragbench_kr_implementati.Prelude.{
  ℕ, suc, Bool, true, not, ◌&&◌, ◌||◌, Option, none, some, String, List, [], ◌∷◌, map, length, any,
  str_eq, leb,
}
use ragbench_kr_implementati.Prelude.Int.{ℤ, pos, leb_ℤ, ltb_ℤ, eqb_ℤ}
use ragbench_kr_implementati.Prelude.Float.{Float}
use ragbench_kr_implementati.Prelude.Text.{is_blank, strip}
use ragbench_kr_implementati.Prelude.Result.{Result, ok, raise_if, value_error, ◌>>=◌, ◌>>◌}
use ragbench_kr_implementati.Prelude.Assoc.{str_key, contains, distinct}
use ragbench_kr_implementati.Experiments.Runs.{
  SnapshotConfig, RetrievalBinding, GenerationBinding, EvaluationBinding, ConcurrencyEvidence,
  RuntimeConfig, ExperimentConfig,
}

-- The digits of `[0-9a-f]`.
all_hex : String → Bool
all_hex String.[] = true
all_hex (String.◌∷◌ c s) =
    ((leb 48 (code c) && leb (code c) 57) || (leb 97 (code c) && leb (code c) 102)) && all_hex s

text_length : String → ℕ
text_length String.[] = 0
text_length (String.◌∷◌ c s) = suc (text_length s)

-- `^[0-9a-f]{low,high}$`
unfoldable pub is_hex : ℕ → ℕ → String → Bool
unfolding all_hex text_length
is_hex low high s = all_hex s && leb low (text_length s) && leb (text_length s) high

-- A field constraint that fails is a `ValidationError`, which is a `ValueError`.
abbrev pub invalid : Bool → Result (Unit {0})
invalid test = raise_if test (value_error "validation error")

-- `Field(min_length=1)`
abbrev is_empty_text : String → Bool
is_empty_text s = str_eq s ""

unfoldable pub check_snapshots : SnapshotConfig → Result (Unit {0})
check_snapshots s =
    invalid (any is_empty_text (s.corpus ∷ s.parse ∷ s.chunks ∷ s.embeddings ∷ s.questions ∷ []))

unfoldable pub check_retrieval : RetrievalBinding → Result (Unit {0})
unfolding is_hex
check_retrieval r = invalid (not (is_hex 64 64 r.config_hash) || leb_ℤ r.top_k (pos 0))

unfoldable pub check_evaluation : EvaluationBinding → Result (Unit {0})
check_evaluation e =
    invalid
      (any is_empty_text (e.deterministic_version ∷ e.judge_model_id ∷ e.judge_prompt_version ∷ []))

-- `_questions_unique`, on the sequence that `_parse_question_sequence` lets through.
unfoldable pub questions_unique : List String → Result (List String)
unfolding strip distinct
questions_unique value = do
  let normalized = map strip value
  raise_if (any is_empty_text normalized) (value_error "question IDs cannot be blank")
  raise_if (not (distinct normalized)) (value_error "duplicate question IDs are not allowed")
  ok normalized

-- `_not_blank`
unfoldable pub not_blank : String → Result String
unfolding is_blank strip
not_blank value = do
  raise_if (is_blank value) (value_error "identity cannot be blank")
  ok (strip value)

module _ (float : Float) where
  open float use {F, order, zero_float, one_float, is_finite, ratio}

  unfoldable pub check_generation : GenerationBinding F → Result (Unit {0})
  unfolding contains
  check_generation g = invalid (
      not (str_eq g.provider "upstage")
      || is_empty_text g.model_alias
      || is_empty_text g.model_id
      || not (contains g.prompt_version ("v1" ∷ "v2" ∷ "v3" ∷ []))
      || not (order.le zero_float g.temperature)
      || not (is_finite g.temperature)
      || leb_ℤ g.max_output_tokens (pos 0)
      || leb_ℤ g.worst_case_input_tokens (pos 0))

  -- A rate between 0 and a bound.
  abbrev is_rate : F → F → Bool
  is_rate bound rate = order.le zero_float rate && order.le rate bound && is_finite rate

  unfoldable pub check_evidence : ConcurrencyEvidence F → Result (Unit {0})
  unfolding is_hex
  check_evidence e = invalid (
      ltb_ℤ e.sample_size (pos 100)
      || ltb_ℤ e.error_window (pos 20)
      || not (is_rate (ratio 2 100) e.provider_error_rate)
      || not (is_rate (ratio 1 100) e.rate_limit_429)
      || not (is_hex 64 64 e.artifact_hash))

  -- `gt=0, le=1`
  abbrev is_stop_rate : F → Bool
  is_stop_rate rate = not (order.le rate zero_float) && order.le rate one_float && is_finite rate

  -- `_validate_concurrency_evidence`
  unfoldable pub check_concurrency : ℤ → Option (ConcurrencyEvidence F) → Result (Unit {0})
  unfolding check_evidence
  check_concurrency concurrency none =
      raise_if (eqb_ℤ concurrency (pos 10))
        (value_error "concurrency evidence is required before increasing to 10")
  check_concurrency concurrency (some evidence) = do
    check_evidence evidence
    raise_if (eqb_ℤ concurrency (pos 5))
        (value_error "concurrency evidence is only valid for concurrency 10")

  unfoldable pub check_runtime : RuntimeConfig F → Result (Unit {0})
  unfolding check_concurrency
  check_runtime r = do
    invalid (
        not (eqb_ℤ r.concurrency (pos 5) || eqb_ℤ r.concurrency (pos 10))
        || ltb_ℤ r.max_retries (pos 0)
        || ltb_ℤ r.seed (pos 0)
        || leb_ℤ r.batch_cap (pos 0)
        || leb_ℤ r.budget_cap_usd (pos 0)
        || not (is_stop_rate r.schema_error_rate_stop)
        || not (is_stop_rate r.provider_error_rate_stop)
        || leb_ℤ r.error_window (pos 0))
    check_concurrency r.concurrency r.concurrency_evidence

  -- `ExperimentConfig.model_validate`, with the names and the question ids stripped.
  unfoldable pub validate : ExperimentConfig F → Result (ExperimentConfig F)
  unfolding check_snapshots check_retrieval check_generation check_evaluation check_runtime
      questions_unique not_blank is_hex
  validate c = do
    invalid (
        not (str_eq c.schema_version "generation-experiment-v1")
        || is_empty_text c.name
        || is_empty_text c.output_dir
        || leb (length c.question_ids) 0
        || not (is_hex 7 40 c.code_commit))
    check_snapshots c.snapshots
    check_retrieval c.retrieval
    check_generation c.generation
    check_evaluation c.evaluation
    check_runtime c.runtime
    name ← not_blank c.name
    question_ids ← questions_unique c.question_ids
    output_dir ← not_blank c.output_dir
    code_commit ← not_blank c.code_commit
    raise_if (ltb_ℤ (pos (length question_ids)) c.runtime.batch_cap)
        (value_error "batch cap cannot exceed question count")
    ok (record c {
      name = name;
      question_ids = question_ids;
      output_dir = output_dir;
      code_commit = code_commit;
    })
