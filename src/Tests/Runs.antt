-- ===== src/Tests/Runs.antt =====
-- src/ragbench/experiments/runner.py. A run of two questions: planned, executed, and what it may cost.
use ragbench_kr_implementati.Prelude.{
  ℕ, ◌≡◌, refl, true, false, Option, some, none, List, [], ◌∷◌, All, String,
}
use ragbench_kr_implementati.Prelude.Int.{pos}
use ragbench_kr_implementati.Prelude.Float.{fixed_point}
use ragbench_kr_implementati.Prelude.Assoc.{str_key, contains, lookup, distinct}
use ragbench_kr_implementati.Prelude.Result.{ok, err, provider_http, file_exists}
use ragbench_kr_implementati.Experiments.Runs.{
  ExperimentConfig, ExperimentQuestionResult, RunStatus, running, completed, ExperimentRun,
  RunDirectory, Root, planned, stopped,
}
use ragbench_kr_implementati.Experiments.Runs.Repository.{create, find, save_result}
use ragbench_kr_implementati.Experiments.Runs.Settings.{validate}
use ragbench_kr_implementati.Experiments.Runs.Lifecycle.{
  IsSound, Reach, here, next, creating, saving, Reach-IsSound,
}
use ragbench_kr_implementati.Experiments.Runs.Execution.{Event, start, finish}
use ragbench_kr_implementati.Experiments.Runs.Execution.Control.{run}
use ragbench_kr_implementati.Experiments.Runs.Execution.Completion.{run_completed}

abbrev sha : String
sha = "0123456789abcdef0123456789abcdef0123456789abcdef0123456789abcdef"

-- Rates are counted in millionths.
abbrev pub config : ExperimentConfig ℕ
config = record {
  schema_version = "generation-experiment-v1";
  name = "n";
  snapshots = record { corpus = "c"; parse = "p"; chunks = "k"; embeddings = "e"; questions = "q" };
  retrieval = record { config_hash = sha; top_k = pos 5 };
  generation = record {
    provider = "upstage";
    model_alias = "solar";
    model_id = "solar";
    prompt_version = "v1";
    temperature = 0;
    max_output_tokens = pos 100;
    worst_case_input_tokens = pos 1000;
  };
  evaluation = record {
    deterministic_version = "1";
    judge_model_id = "j";
    judge_prompt_version = "1";
  };
  runtime = record {
    concurrency = pos 5;
    max_retries = pos 0;
    seed = pos 1;
    batch_cap = pos 2;
    budget_cap_usd = pos 1000000;
    schema_error_rate_stop = 500000;
    provider_error_rate_stop = 500000;
    error_window = pos 1;
    concurrency_evidence = none;
  };
  question_ids = "q1" ∷ "q2" ∷ [];
  output_dir = "out";
  code_commit = "0123456";
}

valid : validate fixed_point config ≡ ok config
unfolding validate
valid = refl

abbrev pub commit_of : ExperimentConfig ℕ → String
commit_of c = c.code_commit

abbrev name_of : ExperimentConfig ℕ → String
name_of c = c.name

abbrev same_id : String → String
same_id id = id

abbrev run_id : String
run_id = "0123456-t"

abbrev state : RunStatus → List String → List String → Option String → ExperimentRun
state status finished failures stop_reason = record {
  run_id = run_id;
  config_hash = "0123456";
  status = status;
  completed_question_ids = finished;
  failed_question_ids = failures;
  stop_reason = stop_reason;
}

abbrev planned_run : RunDirectory ℕ String
planned_run = record {
  run_id = run_id;
  config = config;
  config_sha256 = "n";
  state = state planned [] [] none;
  history = state planned [] [] none ∷ [];
  results = [];
  errors = [];
}

abbrev root : Root ℕ String
root = ("0123456", planned_run) ∷ []

created : create commit_of name_of same_id config "t" [] ≡ (ok (state planned [] [] none), root)
unfolding create
created = refl

created_again :
    (create commit_of name_of same_id config "u" root).0
    ≡ err (file_exists "semantic config hash already has an experiment run")
unfolding create
created_again = refl

abbrev result : String → ExperimentQuestionResult String
result id = record {
  question_id = id;
  response = "r";
  evidence = [];
  usage = record { input_tokens = pos 1; output_tokens = pos 1; cost_usd = pos 1 };
  cached = false;
  correlation_id = none;
}

-- The second question ends first.
abbrev schedule : List (Event String)
schedule = start ∷ start ∷ finish "q2" (ok (result "q2")) ∷ finish "q1" (ok (result "q1")) ∷ []

abbrev completed_run : RunDirectory ℕ String
completed_run = record planned_run {
  state = state completed ("q2" ∷ "q1" ∷ []) [] none;
  history =
      state planned [] [] none
      ∷ state running [] [] none
      ∷ state completed ("q2" ∷ "q1" ∷ []) [] none
      ∷ [];
  results = ("q2", result "q2") ∷ ("q1", result "q1") ∷ [];
}

abbrev completed_root : Root ℕ String
completed_root = ("0123456", completed_run) ∷ []

executed :
    run fixed_point commit_of name_of same_id run_id false none schedule false root
    ≡ some (ok (state completed ("q2" ∷ "q1" ∷ []) [] none), completed_root)
unfolding run
executed = refl

-- A provider failure fills the window of one outcome: the run stops, and the waiting question is not asked.
stopped_run :
    (r : ExperimentRun) × (after : Root ℕ String) × (run fixed_point commit_of name_of same_id
        run_id false none
        (start ∷ finish "q1" (err (provider_http "503")) ∷ start ∷ [])
        false
        root
      ≡ some (ok r, after))
    × (r ≡ state stopped [] ("q1" ∷ []) (some "provider_error_threshold"))
unfolding run
stopped_run = (_, _, refl, refl)

found : find run_id root ≡ ok ("0123456", planned_run)
unfolding find
found = refl

distinct_questions : distinct config.question_ids ≡ true
unfolding distinct
distinct_questions = refl

run_completed_example :
    (final : RunDirectory ℕ String) × (find run_id completed_root ≡ ok ("0123456", final))
    × (final.config.question_ids ≡ config.question_ids)
    × ((id : String)
        → contains id config.question_ids ≡ true
        → (saved : ExperimentQuestionResult String) × (lookup (same_id id) final.results
            ≡ some saved)
          × (saved.question_id ≡ id))
run_completed_example =
    run_completed fixed_point commit_of name_of same_id run_id false false none schedule root
      completed_root "0123456" planned_run (state completed ("q2" ∷ "q1" ∷ []) [] none) (tt, tt)
      found distinct_questions executed refl

abbrev saved_root : Root ℕ String
saved_root = (save_result commit_of name_of same_id run_id (result "q1") root).1

reached_root : Reach commit_of name_of same_id root
unfolding create
reached_root = next here (creating config "t" [])

reached : Reach commit_of name_of same_id saved_root
reached = next reached_root (saving run_id (result "q1") root)

Reach-IsSound_example :
    All
      (λ (entry : String × RunDirectory ℕ String).
        IsSound commit_of name_of same_id entry.0 entry.1)
      saved_root
Reach-IsSound_example = Reach-IsSound commit_of name_of same_id saved_root reached
