-- ===== src/Experiments/Runs/Execution/Control.antt =====
-- src/ragbench/experiments/runner.py, `ExperimentRunner.run`: the checks before the workers start, and what follows
-- their end.
use ragbench_kr_implementati.Prelude.{
  Bool, true, false, not, ◌&&◌, Option, none, some, String, List, [], length, take, filter_rows,
  if◌then◌else◌, ltb, ◌==◌,
}
use ragbench_kr_implementati.Prelude.Int.{pos_part}
use ragbench_kr_implementati.Prelude.Float.{Float}
use ragbench_kr_implementati.Prelude.Result.{Error, Result, ok, err, cancelled_error, ◌>>=◌, ◌>>◌}
use ragbench_kr_implementati.Prelude.Assoc.{str_key, contains}
use ragbench_kr_implementati.Experiments.Runs.{
  ExperimentConfig, running, completed, failed, cancelled, stopped, ExperimentRun, Root,
}
use ragbench_kr_implementati.Experiments.Runs.Repository.{load, load_config, result_ids, transition}
use ragbench_kr_implementati.Experiments.Runs.Execution.{
  Progress, Event, is_some, is_cancellation, check_status, run_events,
}

module _ (float : Float) {J : Type 0} where
  open float use {F}

  module _ (semantic_hash full_hash : ExperimentConfig F → String) (safe_id : String → String)
      (run_id : String) where
    -- `run`, up to the workers.
    unfoldable pub check_start :
        Bool → Option String → Root F J → Result (ExperimentConfig F × List String)
    unfolding load load_config result_ids check_status
    check_start resume acknowledgement root = do
      current ← load semantic_hash full_hash safe_id run_id root
      check_status resume acknowledgement current
      config ← load_config semantic_hash full_hash safe_id run_id root
      saved_ids ← result_ids semantic_hash full_hash safe_id run_id root
      ok (config, saved_ids)

    -- The workers, once the run is marked as running.
    unfoldable pub launched :
        ExperimentConfig F → List String → Result ExperimentRun × Root F J → Result (Progress F J)
    unfolding filter_rows contains
    launched config saved_ids (err raised, root) = err raised
    launched config saved_ids (ok _, root) = ok (record {
      root = root;
      done = saved_ids;
      failures = [];
      recent = [];
      stop = false;
      stop_reason = none;
      waiting =
          take (pos_part config.runtime.batch_cap)
            (filter_rows (λ item. not (contains item saved_ids)) config.question_ids);
      active = [];
      crash = none;
    })

    unfoldable pub launch : ExperimentConfig F → List String → Root F J → Result (Progress F J)
    unfolding launched transition
    launch config saved_ids root = launched config saved_ids (
        transition semantic_hash full_hash safe_id run_id running (some saved_ids) (some []) none
          root)

    -- What follows the workers.
    unfoldable pub conclude : ExperimentConfig F → Progress F J → Result ExperimentRun × Root F J
    unfolding transition
    conclude config p =
        let move = transition semantic_hash full_hash safe_id run_id in
        if is_some p.stop_reason
        then move stopped (some p.done) (some p.failures) p.stop_reason p.root
        else if ltb 0 (length p.failures)
        then move failed (some p.done) (some p.failures) none p.root
        else if not (length p.done == length config.question_ids)
        then move stopped (some p.done) none (some "batch_cap") p.root
        else move completed (some p.done) (some []) none p.root

    -- After the transition that `asyncio.CancelledError` causes, it is raised again.
    abbrev pub raised_again : Result ExperimentRun × Root F J → Result ExperimentRun × Root F J
    raised_again (err raised, root) = (err raised, root)
    raised_again (ok _, root) = (err (cancelled_error "operator cancelled"), root)

    unfoldable pub cancel : Progress F J → Result ExperimentRun × Root F J
    unfolding transition
    cancel p = raised_again (
        transition semantic_hash full_hash safe_id run_id cancelled (some p.done) (some p.failures)
          (some "operator_cancelled") p.root)

    -- The workers have all ended; an exception that left one is raised again.
    unfoldable pub gathered :
        ExperimentConfig F → Option Error → Progress F J → Option (Result ExperimentRun × Root F J)
    unfolding conclude cancel
    gathered config (some raised) p =
        some (if is_cancellation raised then cancel p else (err raised, p.root))
    gathered config none p =
        if length p.waiting == 0 && length p.active == 0 then some (conclude config p) else none

    -- The end of a run: cancelled while its workers run, or gathered.
    unfoldable pub ended :
        ExperimentConfig F → Bool → Option (Progress F J) → Option (Result ExperimentRun × Root F J)
    unfolding gathered cancel
    ended config is_cancelled none = none
    ended config true (some after) = some (cancel after)
    ended config false (some after) = gathered config after.crash after

    unfoldable pub worked :
        ExperimentConfig F
        → List (Event J)
        → Bool
        → Root F J
        → Result (Progress F J)
        → Option (Result ExperimentRun × Root F J)
    unfolding ended run_events
    worked config events is_cancelled root (err raised) = some (err raised, root)
    worked config events is_cancelled root (ok p) =
        ended config is_cancelled
          (run_events float semantic_hash full_hash safe_id run_id config.runtime events p)

    unfoldable pub started :
        List (Event J)
        → Bool
        → Root F J
        → Result (ExperimentConfig F × List String)
        → Option (Result ExperimentRun × Root F J)
    unfolding worked launch
    started events is_cancelled root (err raised) = some (err raised, root)
    started events is_cancelled root (ok (config, saved_ids)) =
        worked config events is_cancelled root (launch config saved_ids root)

    -- `run` under a schedule, cancelled after it or not. `none` is a schedule that cannot happen.
    unfoldable pub run :
        Bool
        → Option String
        → List (Event J)
        → Bool
        → Root F J
        → Option (Result ExperimentRun × Root F J)
    unfolding started check_start
    run resume acknowledgement events is_cancelled root =
        started events is_cancelled root (check_start resume acknowledgement root)
