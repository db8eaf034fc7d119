-- ===== src/Experiments/Runs/Execution.antt =====
-- src/ragbench/experiments/runner.py, `ExperimentRunner`. A worker takes a question when the semaphore admits
-- it and ends when its execution has an outcome; a run is a schedule of such events, in any order. What an
-- executor returns or raises is in its event.
pub mod Control
pub mod Saved
pub mod Members
pub mod Invariant
pub mod Outcome
pub mod Completion
use mathlib.Core.List.{◌++◌ as append}
use ragbench_kr_implementati.Prelude.{
  ℕ, suc, ◌-◌, Bool, true, false, not, ◌&&◌, ◌||◌, Option, none, some, String, List, [], ◌∷◌, map,
  length, take, drop, filter_rows, if◌then◌else◌, str_eq, ltb, ◌==◌,
}
use ragbench_kr_implementati.Prelude.Int.{ℤ, pos, pos_part}
use ragbench_kr_implementati.Prelude.Float.{Float}
use ragbench_kr_implementati.Prelude.Result.{
  Error, Result, ok, err, raise_if, value_error, runtime_error, permission_error, budget_exceeded,
  key_error, integrity_error, arithmetic_error, index_error, unicode_error, file_exists,
  file_not_found, type_error, provider_http, cancelled_error, ◌>>=◌, ◌>>◌,
}
use ragbench_kr_implementati.Prelude.Assoc.{str_key, contains}
use ragbench_kr_implementati.Experiments.Runs.{
  ExperimentConfig, RuntimeConfig, ExperimentQuestionResult, RunStatus, planned, running, completed,
  failed, cancelled, stopped, ExperimentRun, RunDirectory, Root,
}
use ragbench_kr_implementati.Experiments.Runs.Repository.{
  load, load_config, result_ids, transition, save_result, save_error,
}

-- What `recent` records of a question.
pub data Kind : Type 0 where
  saved schema provider other : Kind

abbrev pub is_schema : Kind → Bool
is_schema schema = true
is_schema saved = false
is_schema provider = false
is_schema other = false

abbrev pub is_provider : Kind → Bool
is_provider provider = true
is_provider saved = false
is_provider schema = false
is_provider other = false

-- The kind of an exception, by its class. `BudgetExceededError` has a handler of its own.
abbrev pub kind_of : Error → Kind
kind_of (value_error _) = schema
kind_of (type_error _) = schema
kind_of unicode_error = schema
kind_of (provider_http _) = provider
kind_of _ = other

abbrev pub is_budget : Error → Bool
is_budget (budget_exceeded _) = true
is_budget (value_error _) = false
is_budget _ = false

-- `asyncio.CancelledError`
abbrev pub is_cancellation : Error → Bool
is_cancellation (cancelled_error _) = true
is_cancellation (value_error _) = false
is_cancellation _ = false

-- `gather` raises the first exception.
abbrev pub first_raised : Option Error → Error → Error
first_raised none raised = raised
first_raised (some first) raised = first

-- The variables of `run` while the workers run. `waiting` are the workers that the semaphore holds, in
-- order, `active` those that it has admitted. `crash` is an exception that left a worker.
pub record Progress (F J : Type 0) : Type 0 where
  pub root : Root F J
  pub done : List String
  pub failures : List String
  pub recent : List Kind
  pub stop : Bool
  pub stop_reason : Option String
  pub waiting : List String
  pub active : List String
  pub crash : Option Error

pub data Event (J : Type 0) : Type 0 where
  start : Event J
  finish : String → Result (ExperimentQuestionResult J) → Event J

-- `ids.add(id)`
abbrev pub add_id : String → List String → List String
unfolding contains
add_id id ids = if contains id ids then ids else append ids (id ∷ [])

-- `ids` without a worker that ended.
unfoldable pub without : String → List String → List String
without id [] = []
without id (x ∷ xs) = if str_eq x id then xs else x ∷ without id xs

abbrev pub is_some {ℓ} : {A : Type ℓ} → Option A → Bool
is_some none = false
is_some (some _) = true

abbrev pub is_threshold : Option String → Bool
is_threshold none = false
is_threshold (some reason) =
    str_eq reason "schema_error_threshold" || str_eq reason "provider_error_threshold"

abbrev pub is_completed : RunStatus → Bool
is_completed status = elim status [ completed ↦ true | _ ↦ false ]

abbrev pub is_planned : RunStatus → Bool
is_planned status = elim status [ planned ↦ true | _ ↦ false ]

abbrev pub is_stopped : RunStatus → Bool
is_stopped status = elim status [ stopped ↦ true | _ ↦ false ]

-- The truth value of an optional text.
abbrev pub is_given : Option String → Bool
is_given none = false
is_given (some text) = not (str_eq text "")

-- Whether a run in this state may be executed.
unfoldable pub check_status : Bool → Option String → ExperimentRun → Result (Unit {0})
check_status resume acknowledgement current = do
  raise_if (is_completed current.status) (value_error "completed experiments cannot be resumed")
  raise_if (not (is_planned current.status) && not resume)
      (value_error "non-planned experiment requires --resume")
  raise_if
      (is_stopped current.status
        && is_threshold current.stop_reason
        && not (is_given acknowledgement))
      (permission_error "threshold-stopped experiment requires diagnosis acknowledgement")

module _ (float : Float) {J : Type 0} where
  open float use {F, ratio, order}

  -- The thresholds after a failure, on the latest outcomes.
  unfoldable pub check_window : RuntimeConfig F → Progress F J → Progress F J
  unfolding filter_rows
  check_window runtime p =
      let size = pos_part runtime.error_window in
      let window = drop (length p.recent - size) p.recent in
      let schema_rate = ratio (length (filter_rows is_schema window)) (length window) in
      let provider_rate = ratio (length (filter_rows is_provider window)) (length window) in
      if length window == size
      then if order.le runtime.schema_error_rate_stop schema_rate
        then record p { stop = true; stop_reason = some "schema_error_threshold" }
        else if order.le runtime.provider_error_rate_stop provider_rate
        then record p { stop = true; stop_reason = some "provider_error_threshold" }
        else p
      else p

  module _ (semantic_hash full_hash : ExperimentConfig F → String) (safe_id : String → String)
      (run_id : String) (runtime : RuntimeConfig F) where
    -- The handlers, after `save_error`.
    unfoldable pub handled :
        String → Error → Result (Unit {0}) × Root F J → Progress F J → Progress F J
    unfolding check_window
    handled id error (err raised, root) p = record p {
      root = root;
      crash = some (first_raised p.crash raised);
    }
    handled id error (ok _, root) p =
        if is_budget error
        then record p {
          root = root;
          failures = add_id id p.failures;
          stop = true;
          stop_reason = some "budget_exhausted";
        }
        else check_window runtime (record p {
          root = root;
          failures = add_id id p.failures;
          recent = append p.recent (kind_of error ∷ []);
        })

    unfoldable pub handle : String → Error → Progress F J → Progress F J
    unfolding handled save_error
    handle id error p =
        handled id error (save_error semantic_hash full_hash safe_id run_id id error p.root) p

    -- After `save_result`.
    unfoldable pub recorded : String → Result (Unit {0}) × Root F J → Progress F J → Progress F J
    unfolding handle
    recorded id (err raised, root) p = handle id raised (record p { root = root })
    recorded id (ok _, root) p = record p {
      root = root;
      done = add_id id p.done;
      recent = append p.recent (saved ∷ []);
    }

    unfoldable pub finish_question :
        String → Result (ExperimentQuestionResult J) → Progress F J → Progress F J
    unfolding recorded handle save_result
    finish_question id (err raised) p =
        if is_cancellation raised
        then record p { crash = some (first_raised p.crash raised) }
        else handle id raised p
    finish_question id (ok result) p =
        if str_eq result.question_id id
        then recorded id (save_result semantic_hash full_hash safe_id run_id result p.root) p
        else handle id (value_error "executor returned a result for the wrong question") p

    -- A worker is admitted: it leaves at once when the run is to stop.
    unfoldable pub start_next : List String → Progress F J → Option (Progress F J)
    start_next [] p = none
    start_next (id ∷ waiting) p =
        if ltb (length p.active) (pos_part runtime.concurrency)
        then some (
            if p.stop
            then record p { waiting = waiting }
            else record p { waiting = waiting; active = append p.active (id ∷ []) })
        else none

    -- `none` is an event that cannot happen.
    unfoldable pub step : Event J → Progress F J → Option (Progress F J)
    unfolding start_next finish_question without contains
    step start p = start_next p.waiting p
    step (finish id outcome) p =
        if contains id p.active
        then some (finish_question id outcome (record p { active = without id p.active }))
        else none

    unfoldable pub run_events : List (Event J) → Progress F J → Option (Progress F J)
    unfolding step
    run_events [] p = some p
    run_events (event ∷ events) p = elim (step event p) [
      | none ↦ none
      | some after ↦ run_events events after
    ]
