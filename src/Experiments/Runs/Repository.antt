-- ===== src/Experiments/Runs/Repository.antt =====
-- src/ragbench/experiments/runner.py, `FileExperimentRepository`. The two SHA-256 hashes of a config and the
-- hash that makes a file name of a question id are parameters.
use Prim.Native.String.{◌++◌}
use mathlib.Core.List.{◌++◌ as append}
use ragbench_kr_implementati.Prelude.{
  ℕ, suc, ltb, map, if◌then◌else◌, Bool, true, false, not, ◌&&◌, ◌||◌, Option, none, some, String,
  List, [], ◌∷◌, filter_rows, str_eq,
}
use ragbench_kr_implementati.Prelude.Result.{
  Error, Result, ok, err, raise_if, value_error, file_exists, file_not_found, ◌>>=◌, ◌>>◌,
}
use ragbench_kr_implementati.Prelude.Decimal.{show}
use ragbench_kr_implementati.Prelude.Sorting.{by_key, ascending_str, sorted}
use ragbench_kr_implementati.Prelude.Assoc.{str_key, contains, lookup, put}
use ragbench_kr_implementati.Experiments.Runs.{
  ExperimentConfig, ExperimentQuestionResult, RunStatus, planned, running, completed, failed,
  cancelled, stopped, ExperimentRun, may_follow, ErrorRecord, RunDirectory, Root,
}

-- A file that is written once.
abbrev pub exclusive {ℓ κ} : {A : Type ℓ} {B : Type κ} → Option A → B → Result B
exclusive none written = ok written
exclusive (some _) written = err (file_exists "immutable artifact already exists")

-- `text.startswith(start)`
unfoldable pub starts_with : String → String → Bool
starts_with String.[] value = true
starts_with (String.◌∷◌ c start) String.[] = false
starts_with (String.◌∷◌ c start) (String.◌∷◌ d value) =
    str_eq (String.◌∷◌ c "") (String.◌∷◌ d "") && starts_with start value

abbrev pub only {ℓ} : {A : Type ℓ} → List A → Result A
only [] = err (file_not_found "unknown experiment run")
only (row ∷ []) = ok row
only (_ ∷ _ ∷ _) = err (file_not_found "unknown experiment run")

abbrev pub or_current : List String → Option (List String) → List String
or_current current none = current
or_current current (some ids) = ids

-- The state that a transition writes.
unfoldable pub updated :
    ExperimentRun
    → RunStatus
    → Option (List String)
    → Option (List String)
    → Option String
    → ExperimentRun
updated current status finished failures stop_reason = record {
  run_id = current.run_id;
  config_hash = current.config_hash;
  status = status;
  completed_question_ids = or_current current.completed_question_ids finished;
  failed_question_ids = or_current current.failed_question_ids failures;
  stop_reason = stop_reason;
}

-- `f"{sequence:04d}"`
unfoldable pub four_digits : ℕ → String
unfolding show
four_digits n =
    if ltb n 10
    then "000" ++ show n
    else if ltb n 100
    then "00" ++ show n
    else if ltb n 1000
    then "0" ++ show n
    else show n

abbrev pub status_value : RunStatus → String
status_value planned = "planned"
status_value running = "running"
status_value completed = "completed"
status_value failed = "failed"
status_value cancelled = "cancelled"
status_value stopped = "stopped"

-- The names of the history files, whose states stand in the order of their sequence numbers.
unfoldable pub history_names : ℕ → List ExperimentRun → List (String × ExperimentRun)
unfolding four_digits
history_names sequence [] = []
history_names sequence (run ∷ runs) =
    (four_digits sequence ++ "-" ++ status_value run.status ++ ".json", run)
    ∷ history_names (suc sequence) runs

-- `_write_state` and `_write_history`: the state that is written gets the next sequence number.
unfoldable pub write_state : {F J : Type 0} → ExperimentRun → RunDirectory F J → RunDirectory F J
write_state run directory = record directory {
  state = run;
  history = append directory.history (run ∷ []);
}

abbrev pub or_none : Option (List ErrorRecord) → List ErrorRecord
or_none none = []
or_none (some attempts) = attempts

module _ {F J : Type 0} where
  -- `_find`, of a run id without the characters of a glob pattern, such as `create` makes.
  unfoldable pub find : String → Root F J → Result (String × RunDirectory F J)
  unfolding filter_rows
  find run_id root = only (filter_rows (λ entry. str_eq entry.1.run_id run_id) root)

  -- `history`, the files in the order of their names.
  unfoldable pub history : String → Root F J → Result (List ExperimentRun)
  unfolding find sorted history_names
  history run_id root = do
    (hash, run) ← find run_id root
    let files = sorted (by_key (λ file. file.0) ascending_str) (history_names 0 run.history)
    ok (map (λ file. file.1) files)

module _ {F J : Type 0} (semantic_hash full_hash : ExperimentConfig F → String)
    (safe_id : String → String) where
  -- `create`, at the time that `timestamp` spells.
  unfoldable pub create : ExperimentConfig F → String → Root F J → Result ExperimentRun × Root F J
  unfolding lookup put
  create config timestamp root =
      let hash = semantic_hash config in
      let run_id = hash ++ "-" ++ timestamp in
      let run : ExperimentRun = record {
        run_id = run_id;
        config_hash = hash;
        status = planned;
        completed_question_ids = [];
        failed_question_ids = [];
        stop_reason = none;
      } in
      elim (lookup hash root) [
        | some _ ↦ (err (file_exists "semantic config hash already has an experiment run"), root)
        | none ↦ (
          ok run,
          put hash
              (record {
                run_id = run_id;
                config = config;
                config_sha256 = full_hash config;
                state = run;
                history = run ∷ [];
                results = [];
                errors = [];
              })
              root,
        )
      ]

  unfoldable pub load_config : String → Root F J → Result (ExperimentConfig F)
  unfolding find starts_with
  load_config run_id root = do
    (expected, run) ← find run_id root
    raise_if
        (not (str_eq (semantic_hash run.config) expected)
          || not (starts_with (expected ++ "-") run_id)
          || not (str_eq (full_hash run.config) run.config_sha256))
        (value_error "experiment config was mutated after planning")
    ok run.config

  unfoldable pub load : String → Root F J → Result ExperimentRun
  unfolding load_config find
  load run_id root = do
    config ← load_config run_id root
    (hash, run) ← find run_id root
    ok run.state

  -- The run to change, once the change is allowed.
  unfoldable pub check_transition :
      String → RunStatus → Root F J → Result (String × RunDirectory F J)
  unfolding load find
  check_transition run_id status root = do
    current ← load run_id root
    raise_if (not (may_follow current.status status)) (value_error "unsafe run transition")
    find run_id root

  unfoldable pub apply_transition :
      RunStatus
      → Option (List String)
      → Option (List String)
      → Option String
      → Root F J
      → Result (String × RunDirectory F J)
      → Result ExperimentRun × Root F J
  unfolding updated write_state put
  apply_transition status finished failures stop_reason root (err raised) = (err raised, root)
  apply_transition status finished failures stop_reason root (ok (hash, directory)) =
      let run = updated directory.state status finished failures stop_reason in
      (ok run, put hash (write_state run directory) root)

  unfoldable pub transition :
      String
      → RunStatus
      → Option (List String)
      → Option (List String)
      → Option String
      → Root F J
      → Result ExperimentRun × Root F J
  unfolding check_transition apply_transition
  transition run_id status finished failures stop_reason root =
      apply_transition status finished failures stop_reason root
        (check_transition run_id status root)

  unfoldable pub result : String → String → Root F J → Result (ExperimentQuestionResult J)
  unfolding find lookup
  result run_id question_id root = do
    (hash, run) ← find run_id root
    elim (lookup (safe_id question_id) run.results) [
      | none ↦ err (file_not_found "no such file")
      | some saved ↦ ok saved
    ]

  -- The loop of `result_ids`.
  unfoldable pub collect_ids :
      List (String × ExperimentQuestionResult J) → List String → Result (List String)
  unfolding lookup
  collect_ids results [] = ok []
  collect_ids results (question_id ∷ question_ids) =
      let rest = collect_ids results question_ids in
      elim (lookup (safe_id question_id) results) [
        | none ↦ rest
        | some saved ↦ do
          raise_if (not (str_eq saved.question_id question_id))
              (value_error "invalid immutable result for question")
          later ← rest
          ok (question_id ∷ later)
      ]

  unfoldable pub result_ids : String → Root F J → Result (List String)
  unfolding load_config find collect_ids
  result_ids run_id root = do
    config ← load_config run_id root
    (hash, run) ← find run_id root
    collect_ids run.results config.question_ids

  -- The run that a result is saved for.
  unfoldable pub check_result :
      String → ExperimentQuestionResult J → Root F J → Result (String × RunDirectory F J)
  unfolding load_config find contains lookup
  check_result run_id saved root = do
    config ← load_config run_id root
    raise_if (not (contains saved.question_id config.question_ids))
        (value_error "result question is outside the immutable cohort")
    (hash, run) ← find run_id root
    exclusive (lookup (safe_id saved.question_id) run.results) (hash, run)

  unfoldable pub write_result :
      ExperimentQuestionResult J
      → Root F J
      → Result (String × RunDirectory F J)
      → Result (Unit {0}) × Root F J
  unfolding put
  write_result saved root (err raised) = (err raised, root)
  write_result saved root (ok (hash, run)) = (
    ok tt,
    put hash (record run { results = put (safe_id saved.question_id) saved run.results }) root,
  )

  unfoldable pub save_result :
      String → ExperimentQuestionResult J → Root F J → Result (Unit {0}) × Root F J
  unfolding check_result write_result
  save_result run_id saved root = write_result saved root (check_result run_id saved root)

  unfoldable pub write_error :
      String → Error → Root F J → Result (String × RunDirectory F J) → Result (Unit {0}) × Root F J
  unfolding put lookup
  write_error question_id error root (err raised) = (err raised, root)
  write_error question_id error root (ok (hash, run)) =
      let attempts = or_none (lookup (safe_id question_id) run.errors) in
      let attempt : ErrorRecord = record { question_id = question_id; error = error } in
      (
        ok tt,
        put hash
            (record run {
              errors = put (safe_id question_id) (append attempts (attempt ∷ [])) run.errors;
            })
            root,
      )

  unfoldable pub save_error : String → String → Error → Root F J → Result (Unit {0}) × Root F J
  unfolding find write_error
  save_error run_id question_id error root = write_error question_id error root (find run_id root)
