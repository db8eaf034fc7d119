-- ===== src/Experiments/Runs.antt =====
-- src/ragbench/experiments/runner.py, the records of an experiment and of its run.
-- The directory of a run is a record, the root a dict from config hashes to such directories.
pub mod Repository
pub mod Checks
pub mod Settings
pub mod Plan
pub mod Lifecycle
pub mod Execution
use ragbench_kr_implementati.Prelude.{Bool, true, false, Option, String, List}
use ragbench_kr_implementati.Prelude.Int.{ℤ}
use ragbench_kr_implementati.Prelude.Result.{Error}

pub record SnapshotConfig : Type 0 where
  pub corpus : String
  pub parse : String
  pub chunks : String
  pub embeddings : String
  pub questions : String

pub record RetrievalBinding : Type 0 where
  pub config_hash : String
  pub top_k : ℤ

pub record GenerationBinding (F : Type 0) : Type 0 where
  pub provider : String
  pub model_alias : String
  pub model_id : String
  pub prompt_version : String
  pub temperature : F
  pub max_output_tokens : ℤ
  pub worst_case_input_tokens : ℤ

pub record EvaluationBinding : Type 0 where
  pub deterministic_version : String
  pub judge_model_id : String
  pub judge_prompt_version : String

pub record ConcurrencyEvidence (F : Type 0) : Type 0 where
  pub sample_size : ℤ
  pub error_window : ℤ
  pub provider_error_rate : F
  pub rate_limit_429 : F
  pub artifact_hash : String

-- The budget cap is a decimal with six places, counted in its last place.
pub record RuntimeConfig (F : Type 0) : Type 0 where
  pub concurrency : ℤ
  pub max_retries : ℤ
  pub seed : ℤ
  pub batch_cap : ℤ
  pub budget_cap_usd : ℤ
  pub schema_error_rate_stop : F
  pub provider_error_rate_stop : F
  pub error_window : ℤ
  pub concurrency_evidence : Option (ConcurrencyEvidence F)

pub record ExperimentConfig (F : Type 0) : Type 0 where
  pub schema_version : String
  pub name : String
  pub snapshots : SnapshotConfig
  pub retrieval : RetrievalBinding
  pub generation : GenerationBinding F
  pub evaluation : EvaluationBinding
  pub runtime : RuntimeConfig F
  pub question_ids : List String
  pub output_dir : String
  pub code_commit : String

pub record UsageSnapshot : Type 0 where
  pub input_tokens : ℤ
  pub output_tokens : ℤ
  pub cost_usd : ℤ

-- `J` is the type of JSON objects.
pub record ExperimentQuestionResult (J : Type 0) : Type 0 where
  pub question_id : String
  pub response : J
  pub evidence : List J
  pub usage : UsageSnapshot
  pub cached : Bool
  pub correlation_id : Option String

pub data RunStatus : Type 0 where
  planned running completed failed cancelled stopped : RunStatus

pub record ExperimentRun : Type 0 where
  pub run_id : String
  pub config_hash : String
  pub status : RunStatus
  pub completed_question_ids : List String
  pub failed_question_ids : List String
  pub stop_reason : Option String

-- `status in _TRANSITIONS[current]`
abbrev pub may_follow : RunStatus → RunStatus → Bool
may_follow planned running = true
may_follow planned cancelled = true
may_follow running completed = true
may_follow running failed = true
may_follow running cancelled = true
may_follow running stopped = true
may_follow failed running = true
may_follow cancelled running = true
may_follow stopped running = true
may_follow _ _ = false

-- A file under `errors/`.
pub record ErrorRecord : Type 0 where
  pub question_id : String
  pub error : Error

-- The files of a run. `results` and `errors` are directories of files named by hashes of question ids.
pub record RunDirectory (F J : Type 0) : Type 0 where
  pub run_id : String
  pub config : ExperimentConfig F
  pub config_sha256 : String
  pub state : ExperimentRun
  pub history : List ExperimentRun
  pub results : List (String × ExperimentQuestionResult J)
  pub errors : List (String × List ErrorRecord)

-- The root: a hash directory holds the directory of its one run.
abbrev pub Root : Type 0 → Type 0 → Type 0
Root F J = List (String × RunDirectory F J)
